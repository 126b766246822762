-- ===== src/Base/Sort.antt =====
-- A stable sort by a Boolean order, as `sorted` and `list.sort` with a key give it.
use mathlib.Core.Path.{◌≡◌, refl, sym}
use mathlib.Core.Bool.{Bool}
use mathlib.Core.List.{List, [], ◌∷◌, map, Perm}
use mathlib.Core.List.Perm
use native.Mathlib.Omega.{arith}
use Prim.Native.Nat.{ℕ, ◌+◌, ◌≤◌}
use native.Mathlib.Nat.{le_trans}
use mathlib.Core.Logic.{◌≢◌}
use shard_glm_image.Base.Lists.{All, sum_of}
use shard_glm_image.Base.Tests.{leb, leb→le, if◌then◌else◌, Bool-cases}
use mathlib.Core.Logic.{inl, inr}

module _ {ℓ} {A : Type ℓ} (le : A → A → Bool) where
  -- `x` goes before the first element that it is not after.
  unfoldable pub insert_by : A → List A → List A
  insert_by x [] = x ∷ []
  insert_by x (y ∷ ys) = if le x y then x ∷ y ∷ ys else y ∷ insert_by x ys

  unfoldable pub sort_by : List A → List A
  unfolding insert_by
  sort_by [] = []
  sort_by (x ∷ xs) = insert_by x (sort_by xs)

  insert_by-perm : (x : A) (ys : List A) → Perm (insert_by x ys) (x ∷ ys)
  unfolding insert_by
  insert_by-perm x [] = Perm.refl (x ∷ [])
  insert_by-perm x (y ∷ ys) = elim (Bool-cases (le x y)) [
    | inl e ↦ rw e (Perm.refl (x ∷ y ∷ ys))
    | inr e ↦ rw e (Perm.trans (Perm.cons y (insert_by-perm x ys)) (Perm.swap x y ys))
  ]

  pub sort_by-perm : (xs : List A) → Perm (sort_by xs) xs
  unfolding sort_by
  sort_by-perm [] = Perm.refl []
  sort_by-perm (x ∷ xs) = Perm.trans (insert_by-perm x (sort_by xs)) (Perm.cons x (sort_by-perm xs))

module _ {ℓ κ} {A : Type ℓ} {B : Type κ} (le : A → A → Bool) (le' : B → B → Bool) (g : A → B)
    (keep : (a b : A) → le' (g a) (g b) ≡ le a b) where
  insert_by-map : (x : A) (ys : List A) → insert_by le' (g x) (map g ys) ≡ map g (insert_by le x ys)
  unfolding insert_by
  insert_by-map x [] = refl
  insert_by-map x (y ∷ ys) = ground (arith, keep x y, insert_by-map x ys)

  -- Sorting commutes with a map that keeps the order.
  pub sort_by-map : (xs : List A) → sort_by le' (map g xs) ≡ map g (sort_by le xs)
  unfolding sort_by
  sort_by-map [] = refl
  sort_by-map (x ∷ xs) = rw (sort_by-map xs) (insert_by-map x (sort_by le xs))

module _ {ℓ κ} {A : Type ℓ} (le : A → A → Bool) (P : A → Type κ) where
  All-insert_by : (x : A) (ys : List A) → P x → All P ys → All P (insert_by le x ys)
  unfolding insert_by
  All-insert_by x [] p ps = (p, tt)
  All-insert_by x (y ∷ ys) p ps = elim (Bool-cases (le x y)) [
    | inl e ↦ rw e (p, ps)
    | inr e ↦ rw e (ps.0, All-insert_by x ys p ps.1)
  ]

  pub All-sort_by : (xs : List A) → All P xs → All P (sort_by le xs)
  unfolding sort_by
  All-sort_by [] ps = tt
  All-sort_by (x ∷ xs) ps = All-insert_by x (sort_by le xs) ps.0 (All-sort_by xs ps.1)

module _ {ℓ} {A : Type ℓ} (le : A → A → Bool) where
  module _ (f : A → ℕ) where
    sum_of-insert_by : (x : A) (ys : List A) → sum_of f (insert_by le x ys) ≡ f x + sum_of f ys
    unfolding insert_by
    sum_of-insert_by x [] = refl
    sum_of-insert_by x (y ∷ ys) = ground (arith, sum_of-insert_by x ys)

    pub sum_of-sort_by : (xs : List A) → sum_of f (sort_by le xs) ≡ sum_of f xs
    unfolding sort_by
    sum_of-sort_by [] = refl
    sum_of-sort_by (x ∷ xs) = omega (arith, sum_of-insert_by x (sort_by le xs), sum_of-sort_by xs)

  module _ {κ} (P : A → Type κ) where
    All-of-insert_by : (x : A) (ys : List A) → All P (insert_by le x ys) → P x × All P ys
    unfolding insert_by
    All-of-insert_by x [] ps = ps
    All-of-insert_by x (y ∷ ys) ps = elim (Bool-cases (le x y)) [
      | inl e ↦ rw (e, insert_by) at ps
      | inr e ↦
          let qs : P y × All P (insert_by le x ys) = rw (e, insert_by) at ps in
          let (p, rest) = All-of-insert_by x ys qs.1 in (p, (qs.0, rest))
    ]

    -- What holds of every element of the sorted list holds of every element.
    pub All-of-sort_by : (xs : List A) → All P (sort_by le xs) → All P xs
    unfolding sort_by
    All-of-sort_by [] ps = tt
    All-of-sort_by (x ∷ xs) ps =
        let (p, rest) = All-of-insert_by x (sort_by le xs) ps in (p, All-of-sort_by xs rest)

-- No two elements are equal.
abbrev pub Distinct : List ℕ → Type 0
Distinct [] = Unit
Distinct (x ∷ xs) = All (λ y. y ≢ x) xs × Distinct xs

-- The key does not fall along the list.
abbrev pub Ascending : (ℕ → ℕ) → List ℕ → Type 0
Ascending key [] = Unit
Ascending key (x ∷ xs) = All (λ y. key x ≤ key y) xs × Ascending key xs

All-weaken {κ μ} :
    {P : ℕ → Type κ} {Q : ℕ → Type μ} (xs : List ℕ) → ((x : ℕ) → P x → Q x) → All P xs → All Q xs
All-weaken [] f ps = tt
All-weaken (x ∷ xs) f ps = (f x ps.0, All-weaken xs f ps.1)

module _ (key : ℕ → ℕ) where
  abbrev pub le_key : ℕ → ℕ → Bool
  le_key a b = leb (key a) (key b)

  insert_by-Ascending :
      (x : ℕ) (ys : List ℕ) → Ascending key ys → Ascending key (insert_by le_key x ys)
  unfolding insert_by
  insert_by-Ascending x [] h = (tt, tt)
  insert_by-Ascending x (y ∷ ys) h = elim (Bool-cases (le_key x y)) [
    | inl e ↦ rw e ((leb→le _ _ e, All-weaken ys (λ z p. le_trans (leb→le _ _ e) p) h.0), h)
    | inr e ↦ rw e (
      All-insert_by le_key (λ z. key y ≤ key z) x ys (ground arith) h.0,
      insert_by-Ascending x ys h.1,
    )
  ]

  pub sort_by-Ascending : (xs : List ℕ) → Ascending key (sort_by le_key xs)
  unfolding sort_by
  sort_by-Ascending [] = tt
  sort_by-Ascending (x ∷ xs) = insert_by-Ascending x (sort_by le_key xs) (sort_by-Ascending xs)

module _ (le : ℕ → ℕ → Bool) where
  insert_by-Distinct :
      (x : ℕ) (ys : List ℕ) → All (λ y. y ≢ x) ys → Distinct ys → Distinct (insert_by le x ys)
  unfolding insert_by
  insert_by-Distinct x [] n h = (tt, tt)
  insert_by-Distinct x (y ∷ ys) n h = elim (Bool-cases (le x y)) [
    | inl e ↦ rw e (n, h)
    | inr e ↦
        rw e (
          All-insert_by le (λ z. z ≢ y) x ys (λ q. n.0 (sym q)) h.0,
          insert_by-Distinct x ys n.1 h.1,
        )
  ]

  pub sort_by-Distinct : (xs : List ℕ) → Distinct xs → Distinct (sort_by le xs)
  unfolding sort_by
  sort_by-Distinct [] h = tt
  sort_by-Distinct (x ∷ xs) h =
      insert_by-Distinct x (sort_by le xs) (All-sort_by le (λ y. y ≢ x) xs h.0)
        (sort_by-Distinct xs h.1)
