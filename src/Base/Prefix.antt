-- ===== src/Base/Prefix.antt =====
-- Prefixes of lists.
use mathlib.Core.List.{append-nil}
use Prim.Native.Nat.{ℕ, zero, suc, ◌-◌, ◌≤◌}
use mathlib.Core.Path.{◌≡◌, refl, sym, ap, ◌∙◌}
use mathlib.Core.List.{List, [], ◌∷◌, ◌++◌}
use native.Mathlib.Omega.{arith}
use shard_glm_image.Base.Lists.{length, take, drop, length-append}

-- `ys` goes on from `xs`.
abbrev pub Extends {ℓ} : {A : Type ℓ} → List A → List A → Type ℓ
Extends {A = A} xs ys = (zs : List A) × (ys ≡ xs ++ zs)

module _ {ℓ} {A : Type ℓ} where
  pub Extends-refl : (xs : List A) → Extends xs xs
  Extends-refl xs = ([], sym (append-nil xs))

  pub Extends-nil : (ys : List A) → Extends [] ys
  Extends-nil ys = (ys, refl)

  pub Extends-cons : (x : A) (xs ys : List A) → Extends xs ys → Extends (x ∷ xs) (x ∷ ys)
  Extends-cons x xs ys (zs, e) = (zs, ap (◌∷◌ x) e)

  pub drop-append : (xs zs : List A) → drop (length xs) (xs ++ zs) ≡ zs
  drop-append [] zs = refl
  drop-append (x ∷ xs) zs = drop-append xs zs

  pub length-Extends : (xs ys : List A) → Extends xs ys → length xs ≤ length ys
  length-Extends xs ys (zs, e) = omega (arith, ap length e, length-append xs zs)

  -- What is no longer than what it goes on from is the same list.
  pub eq_of_Extends : (xs ys : List A) → Extends xs ys → length ys ≤ length xs → ys ≡ xs
  eq_of_Extends xs ys ([], e) h = e ∙ append-nil xs
  eq_of_Extends xs ys (z ∷ zs, e) h = absurd (omega (arith, ap length e, length-append xs (z ∷ zs)))

  -- To append what is missing gives the longer list.
  pub append-drop : (xs ys : List A) → Extends xs ys → xs ++ drop (length xs) ys ≡ ys
  append-drop xs ys (zs, e) = rw (e, drop-append xs zs)

  pub take-append : (n : ℕ) (xs zs : List A) → n ≤ length xs → take n (xs ++ zs) ≡ take n xs
  take-append zero xs zs h = refl
  take-append (suc n) [] zs h = absurd (omega arith)
  take-append (suc n) (x ∷ xs) zs h = ap (◌∷◌ x) (take-append n xs zs (omega arith))

  pub drop-Extends : (n : ℕ) (xs zs : List A) → n ≤ length xs → drop n (xs ++ zs) ≡ drop n xs ++ zs
  drop-Extends zero xs zs h = refl
  drop-Extends (suc n) [] zs h = absurd (omega arith)
  drop-Extends (suc n) (x ∷ xs) zs h = drop-Extends n xs zs (omega arith)

  pub take-drop : (n : ℕ) (xs : List A) → xs ≡ take n xs ++ drop n xs
  take-drop zero xs = refl
  take-drop (suc n) [] = refl
  take-drop (suc n) (x ∷ xs) = ap (◌∷◌ x) (take-drop n xs)

  pub length-drop : (n : ℕ) (xs : List A) → length (drop n xs) ≡ length xs - n
  length-drop zero xs = omega arith
  length-drop (suc n) [] = omega arith
  length-drop (suc n) (x ∷ xs) = omega (arith, length-drop n xs)

  pub length-take : (n : ℕ) (xs : List A) → length (take n xs) ≤ n
  length-take zero xs = omega arith
  length-take (suc n) [] = omega arith
  length-take (suc n) (x ∷ xs) = omega (arith, length-take n xs)
