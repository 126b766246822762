-- ===== src/Topology/Head/Arranged.antt =====
-- `permutations` lists every rearrangement and nothing else (shard/shard/topology.py `_head_first`).
use mathlib.Core.List.{
  Perm, append_assoc, perm_middle, Mem, not-mem-nil, mem-cons_self, mem_of_ne_of_mem,
}
use mathlib.Core.List.Perm
use shard_glm_image.Base.{
  ℕ, zero, suc, ◌≡◌, ◌∙◌, sym, ap, subst, List, [], ◌∷◌, ◌++◌, arith, All, map, length, ℕ_discrete,
  length-append,
}
use shard_glm_image.Topology.Head.{each, permutations}

All_join : (P : List ℕ → Type 0) (ps qs : List (List ℕ)) → All P ps → All P qs → All P (ps ++ qs)
All_join P [] qs a b = b
All_join P (p ∷ ps) qs a b = (a.0, All_join P ps qs a.1 b)

All_sides : (P : List ℕ → Type 0) (ps qs : List (List ℕ)) → All P (ps ++ qs) → All P ps × All P qs
All_sides P [] qs h = (tt, h)
All_sides P (p ∷ ps) qs h = let (left, right) = All_sides P ps qs h.1 in ((h.0, left), right)

All-map :
    (P : List ℕ → Type 0) (x : ℕ) (ps : List (List ℕ))
    → All (λ p. P (x ∷ p)) ps
    → All P (map (◌∷◌ x) ps)
All-map P x [] h = tt
All-map P x (p ∷ ps) h = (h.0, All-map P x ps h.1)

All_unmap :
    (P : List ℕ → Type 0) (x : ℕ) (ps : List (List ℕ))
    → All P (map (◌∷◌ x) ps)
    → All (λ p. P (x ∷ p)) ps
All_unmap P x [] h = tt
All_unmap P x (p ∷ ps) h = (h.0, All_unmap P x ps h.1)

All_weaken :
    (P Q : List ℕ → Type 0) (ps : List (List ℕ)) → ((p : List ℕ) → P p → Q p) → All P ps → All Q ps
All_weaken P Q [] f h = tt
All_weaken P Q (p ∷ ps) f h = (f p h.0, All_weaken P Q ps f h.1)

-- The list with the element at the seam moved to the front part.
moved : (front behind : List ℕ) (x : ℕ) → (front ++ x ∷ []) ++ behind ≡ front ++ x ∷ behind
moved front behind x = append_assoc front (x ∷ []) behind

module _ (n : ℕ) (perms : List ℕ → List (List ℕ)) where
  each_sound :
      ((ys : List ℕ) → length ys ≡ n → All (λ p. Perm p ys) (perms ys))
      → (front behind : List ℕ) → length (front ++ behind) ≡ suc n
      → All (λ p. Perm p (front ++ behind)) (each perms front behind)
  unfolding each
  each_sound sound front [] h = tt
  each_sound sound front (x ∷ behind) h =
      let seam = moved front behind x in
      let fewer : length (front ++ behind) ≡ n =
        omega (arith, h, length-append front behind, length-append front (x ∷ behind)) in
      All_join _ (map (◌∷◌ x) (perms (front ++ behind))) (each perms (front ++ x ∷ []) behind)
        (All-map _ x (perms (front ++ behind)) (
          All_weaken _ _ (perms (front ++ behind))
            (λ p q. Perm.trans (Perm.cons x q) (Perm.symm (perm_middle front behind)))
            (sound (front ++ behind) fewer)))
        (subst (λ (ys : List ℕ). All (λ p. Perm p ys) (each perms (front ++ x ∷ []) behind)) seam
          (each_sound sound (front ++ x ∷ []) behind (ap length seam ∙ h)))

  each_complete :
      (Q : List ℕ → Type 0) (front ahead : List ℕ) (y : ℕ) (after : List ℕ)
      → All Q (each perms front (ahead ++ y ∷ after))
      → All (λ p. Q (y ∷ p)) (perms (front ++ (ahead ++ after)))
  unfolding each
  each_complete Q front [] y after h = All_unmap Q y (perms (front ++ after)) (All_sides Q _ _ h).0
  each_complete Q front (x ∷ ahead) y after h =
      subst (λ (ys : List ℕ). All (λ p. Q (y ∷ p)) (perms ys)) (moved front (ahead ++ after) x)
        (each_complete Q (front ++ x ∷ []) ahead y after (All_sides Q _ _ h).1)

-- Every permutation is a rearrangement.
pub permutations-perm :
    (n : ℕ) (xs : List ℕ) → length xs ≡ n → All (λ p. Perm p xs) (permutations n xs)
unfolding permutations
permutations-perm zero [] h = (Perm.refl [], tt)
permutations-perm zero (x ∷ xs) h = absurd (omega (arith, h))
permutations-perm (suc n) xs h = each_sound n (permutations n) (permutations-perm n) [] xs h

-- Where an element of a list stands.
found :
    (y : ℕ) (xs : List ℕ)
    → Mem y xs
    → (ahead : List ℕ) × (after : List ℕ) × (xs ≡ ahead ++ y ∷ after)
found y [] m = absurd (not-mem-nil m)
found y (x ∷ xs) m = elim (ℕ_discrete y x) [
  | yes e ↦ ([], xs, ap (λ (z : ℕ). z ∷ xs) (sym e))
  | no n ↦
      let (ahead, after, e) = found y xs (mem_of_ne_of_mem n m) in (x ∷ ahead, after, ap (◌∷◌ x) e)
]

-- Every rearrangement is listed: what holds of all that are listed holds of it.
pub permutations_complete :
    (n : ℕ) (xs p : List ℕ) (Q : List ℕ → Type 0)
    → length xs ≡ n
    → Perm p xs
    → All Q (permutations n xs)
    → Q p
unfolding permutations
permutations_complete zero [] p Q h q all = subst Q (sym (Perm.eq-nil q)) all.0
permutations_complete zero (x ∷ xs) p Q h q all = absurd (omega (arith, h))
permutations_complete (suc n) [] p Q h q all = absurd (omega (arith, h))
permutations_complete (suc n) (x ∷ xs) [] Q h q all =
    absurd (not-mem-nil ((Perm.mem_iff q).1 mem-cons_self))
permutations_complete (suc n) (x ∷ xs) (y ∷ p) Q h q all =
    let (ahead, after, e) = found y (x ∷ xs) ((Perm.mem_iff q).0 mem-cons_self) in
    let rest : Perm p (ahead ++ after) =
      Perm.cons_inv (Perm.trans (subst (Perm (y ∷ p)) e q) (perm_middle ahead after)) in
    let fewer : length (ahead ++ after) ≡ n =
      omega (arith, h, ap length e, length-append ahead after, length-append ahead (y ∷ after)) in
    permutations_complete n (ahead ++ after) p (λ r. Q (y ∷ r)) fewer rest
      (each_complete n (permutations n) Q [] ahead y after
        (subst (λ (ys : List ℕ). All Q (each (permutations n) [] ys)) e all))
