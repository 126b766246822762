-- ===== src/Topology/Head/Cheapest.antt =====
-- The order that starts at the head is the cheapest such order (shard/shard/topology.py `_head_first`).
use mathlib.Core.Option
use mathlib.Core.List.{Perm, Mem, not-mem-nil, mem-cons_self, mem_of_ne_of_mem}
use mathlib.Core.List.Perm
use shard_glm_image.Base.{
  ℕ, ◌≤◌, ◌<◌, ◌≡◌, ◌≢◌, ◌∙◌, refl, sym, ap, subst, some, List, [], ◌∷◌, arith, All, length, inl,
  inr, ℕ_discrete, Bool-cases, ltb, leb, ◌==◌, Bool, true, false, if◌then◌else◌,
}
use shard_glm_image.Base.Sort.{Distinct}
use shard_glm_image.Topology.Head.{
  loop_cost, without, permutations, best_of, min_by, pinned_first, head_first,
}
use shard_glm_image.Topology.Head.Arranged.{permutations-perm, permutations_complete}

module _ (key : List ℕ → ℕ) where
  best_of_mono : (best : List ℕ) (ps : List (List ℕ)) → key (best_of key best ps) ≤ key best
  unfolding best_of
  best_of_mono best [] = omega arith
  best_of_mono best (p ∷ ps) = ground (arith, best_of_mono p ps, best_of_mono best ps)

  best_of-least :
      (best : List ℕ) (ps : List (List ℕ)) → All (λ p. key (best_of key best ps) ≤ key p) ps
  unfolding best_of
  best_of-least best [] = tt
  best_of-least best (p ∷ ps) = elim (Bool-cases (ltb (key p) (key best))) [
    | inl y ↦
        let e : best_of key best (p ∷ ps) ≡ best_of key p ps = rw y refl in
        subst (λ (r : List ℕ). All (λ q. key r ≤ key q) (p ∷ ps)) (sym e)
          (best_of_mono p ps, best_of-least p ps)
    | inr n ↦
        let e : best_of key best (p ∷ ps) ≡ best_of key best ps = rw n refl in
        subst (λ (r : List ℕ). All (λ q. key r ≤ key q) (p ∷ ps)) (sym e)
          (ground (arith, n, best_of_mono best ps), best_of-least best ps)
  ]

  best_of_one :
      (P : List ℕ → Type 0) (best : List ℕ) (ps : List (List ℕ))
      → P best
      → All P ps
      → P (best_of key best ps)
  unfolding best_of
  best_of_one P best [] h all = h
  best_of_one P best (p ∷ ps) h all = elim (Bool-cases (ltb (key p) (key best))) [
    | inl y ↦ rw y (best_of_one P p ps all.0 all.1)
    | inr n ↦ rw n (best_of_one P best ps h all.1)
  ]

  -- The smallest of some lists, of which one has `P`, and all that are listed have.
  min_by-least :
      (P : List ℕ → Type 0) (ps : List (List ℕ))
      → All P ps
      → ps ≢ []
      → (best : List ℕ) × (min_by key ps ≡ some best) × P best × All (λ p. key best ≤ key p) ps
  unfolding min_by
  min_by-least P [] all some_p = absurd (some_p refl)
  min_by-least P (p ∷ ps) all some_p = (
    best_of key p ps,
    refl,
    best_of_one P p ps all.0 all.1,
    (best_of_mono p ps, best_of-least p ps),
  )

without_self : (head : ℕ) (order : List ℕ) → All (λ n. n ≢ head) order → without head order ≡ order
unfolding without
without_self head [] h = refl
without_self head (n ∷ order) h = ground (arith, h.0, without_self head order h.1)

pub without-perm :
    (head : ℕ) (order : List ℕ)
    → Distinct order
    → Mem head order
    → Perm (head ∷ without head order) order
unfolding without
without-perm head [] d m = absurd (not-mem-nil m)
without-perm head (n ∷ order) d m = elim (Bool-cases (n == head)) [
  | inl y ↦
      let same : n ≡ head = ground (arith, y) in
      rw (y, without_self head order (subst (λ (k : ℕ). All (λ x. x ≢ k) order) same d.0))
        (subst (λ (k : ℕ). Perm (head ∷ order) (k ∷ order)) (sym same) (Perm.refl (head ∷ order)))
  | inr differs ↦
      let other : head ≢ n = λ e. ground (arith, differs, e) in
      rw differs (
        Perm.trans (Perm.swap n head (without head order))
          (Perm.cons n (without-perm head order d.1 (mem_of_ne_of_mem other m))))
]

length-without_le : (head : ℕ) (order : List ℕ) → length (without head order) ≤ length order
unfolding without
length-without_le head [] = omega arith
length-without_le head (n ∷ order) = ground (arith, length-without_le head order)

pub length-without :
    (head : ℕ) (order : List ℕ) → Mem head order → length (without head order) < length order
unfolding without
length-without head [] m = absurd (not-mem-nil m)
length-without head (n ∷ order) m = elim (ℕ_discrete head n) [
  | yes e ↦ ground (arith, e, length-without_le head order)
  | no other ↦
      ground
        (arith, length-without_le head order, length-without head order (mem_of_ne_of_mem other m))
]

permutations_nonempty : (rest : List ℕ) → permutations (length rest) rest ≢ []
permutations_nonempty rest e =
    permutations_complete (length rest) rest rest (λ p. ⊥) refl (Perm.refl rest)
      (subst (All (λ p. ⊥)) (sym e) tt)

module _ (L : ℕ → ℕ → ℕ) (c_out c_in : ℕ → ℕ) (head : ℕ) where
  -- The exhaustive search finds the cheapest continuation.
  pinned_first-least :
      (rest p : List ℕ)
      → length rest ≤ 7
      → Perm p rest
      → (best : List ℕ) × (pinned_first L c_out c_in head rest ≡ some (head ∷ best))
        × Perm best rest
        × (loop_cost L c_out c_in (head ∷ best) ≤ loop_cost L c_out c_in (head ∷ p))
  unfolding pinned_first
  pinned_first-least rest p small q =
      let key : List ℕ → ℕ = λ r. loop_cost L c_out c_in (head ∷ r) in
      let (best, found, good, least) =
        min_by-least key (λ r. Perm r rest) (permutations (length rest) rest)
          (permutations-perm (length rest) rest refl) (permutations_nonempty rest) in
      let few : leb (length rest) 7 ≡ true = ground (arith, small) in
      (
        best,
        rw few (ap (Option.map (◌∷◌ head)) found),
        good,
        permutations_complete (length rest) rest p (λ r. key best ≤ key r) refl q least,
      )

  searched :
      (n : ℕ) (order : List ℕ)
      → n ≢ head
      → head_first L c_out c_in head (n ∷ order)
        ≡ pinned_first L c_out c_in head (without head (n ∷ order))
  unfolding head_first
  searched n order elsewhere =
      let differs : (n == head) ≡ false = ground (arith, elsewhere) in
      ap
        (λ (b : Bool).
          if b then some (n ∷ order) else pinned_first L c_out c_in head (without head (n ∷ order)))
        differs

  -- In an order of at most eight different nodes that starts elsewhere, `_head_first` returns an order of the same
  -- nodes that starts at the head and costs no more than any order of them that starts at the head.
  pub head_first-loop_cost :
      (n : ℕ) (order p : List ℕ)
      → Distinct (n ∷ order)
      → n ≢ head
      → length (n ∷ order) ≤ 8
      → Perm (head ∷ p) (n ∷ order)
      → (best : List ℕ) × (head_first L c_out c_in head (n ∷ order) ≡ some (head ∷ best))
        × Perm (head ∷ best) (n ∷ order)
        × (loop_cost L c_out c_in (head ∷ best) ≤ loop_cost L c_out c_in (head ∷ p))
  head_first-loop_cost n order p distinct elsewhere small q =
      let m : Mem head (n ∷ order) = (Perm.mem_iff q).0 mem-cons_self in
      let whole = without-perm head (n ∷ order) distinct m in
      let rest = without head (n ∷ order) in
      let (best, found, good, least) =
        pinned_first-least rest p (omega (arith, small, length-without head (n ∷ order) m))
          (Perm.cons_inv (Perm.trans q (Perm.symm whole))) in
      (best, searched n order elsewhere ∙ found, Perm.trans (Perm.cons head good) whole, least)
