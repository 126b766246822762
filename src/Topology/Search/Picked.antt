-- ===== src/Topology/Search/Picked.antt =====
-- The subsets that shard/shard/topology.py `_search` goes through, and what a test of their subnets says.
use mathlib.Core.Logic.Or
use mathlib.Core.HLevel.{⊥_prop}
use mathlib.Core.List.{
  Mem, Nodup, Nodup-cons, Nodup-nil, mem-map_of_mem, not-mem-nil, mem-cons_self, mem-cons_of_mem,
  eq-or-mem_of_mem-cons,
}
use shard_glm_image.Base.{
  ℕ, zero, suc, ◌≤◌, ◌≡◌, ◌≢◌, ◌==◌, refl, sym, subst, Bool, true, false, Bool-cases, inl, inr,
  List, [], ◌∷◌, ◌++◌, All, arith, length, map, ap,
}
use shard_glm_image.Base.Sort.{Distinct}
use shard_glm_image.Topology.Search.{among, chosen, set_size, combinations}

pub among-Mem : (n : ℕ) (ns : List ℕ) → among n ns ≡ true → Mem n ns
among-Mem n [] h = absurd (cc h)
among-Mem n (m ∷ ms) h = elim (Bool-cases (m == n)) [
  | inl y ↦
      let e : m ≡ n = ground (arith, y) in subst (λ (k : ℕ). Mem n (k ∷ ms)) (sym e) mem-cons_self
  | inr differs ↦ mem-cons_of_mem m (among-Mem n ms (ground (arith, h, differs)))
]

Mem-among : (n : ℕ) (ns : List ℕ) → among n ns ≡ false → Mem n ns → ⊥
Mem-among n [] h m = not-mem-nil m
Mem-among n (k ∷ ns) h m =
    Or.elim ⊥_prop (eq-or-mem_of_mem-cons m) (λ e. ground (arith, h, e))
      (λ there. Mem-among n ns (ground (arith, h)) there)

set_size-le : (ns : List ℕ) → set_size ns ≤ length ns
unfolding set_size
set_size-le [] = omega arith
set_size-le (n ∷ ns) = ground (arith, set_size-le ns)

-- A list with as many different members as it is long repeats none.
pub set_size-Nodup : (ns : List ℕ) → length ns ≤ set_size ns → Nodup ns
unfolding set_size
set_size-Nodup [] h = Nodup-nil
set_size-Nodup (n ∷ ns) h = elim (Bool-cases (among n ns)) [
  | inl y ↦ absurd (ground (arith, h, y, set_size-le ns))
  | inr new ↦ Nodup-cons.1 (Mem-among n ns new, set_size-Nodup ns (ground (arith, h, new)))
]

pub All-chosen :
    (Q : ℕ → Type 0) (test : ℕ → Bool) (ns : List ℕ) → All Q ns → All Q (chosen test ns)
unfolding chosen
All-chosen Q test [] h = tt
All-chosen Q test (n ∷ ns) h = elim (Bool-cases (test n)) [
  | inl y ↦ rw y (h.0, All-chosen Q test ns h.1)
  | inr out ↦ rw out (All-chosen Q test ns h.1)
]

pub All_widen :
    {A : Type 0} (P Q : A → Type 0) (xs : List A) → ((x : A) → P x → Q x) → All P xs → All Q xs
All_widen P Q [] f h = tt
All_widen P Q (x ∷ xs) f h = (f x h.0, All_widen P Q xs f h.1)

pub All-Mem : (ns : List ℕ) → All (λ n. Mem n ns) ns
All-Mem [] = tt
All-Mem (n ∷ ns) = (
  mem-cons_self,
  All_widen (λ m. Mem m ns) (λ m. Mem m (n ∷ ns)) ns (λ m there. mem-cons_of_mem n there)
      (All-Mem ns),
)

-- Every combination has the length asked for, and what holds of the members of the list holds of its members.
abbrev pub IsPick : (ℕ → Type 0) → ℕ → List ℕ → Type 0
IsPick Q k s = (length s ≡ k) × All Q s

pub All_joined :
    {A : Type 0} (P : A → Type 0) (xs ys : List A) → All P xs → All P ys → All P (xs ++ ys)
All_joined P [] ys a b = b
All_joined P (x ∷ xs) ys a b = (a.0, All_joined P xs ys a.1 b)

pub combinations-IsPick :
    (Q : ℕ → Type 0) (k : ℕ) (ns : List ℕ) → All Q ns → All (IsPick Q k) (combinations k ns)
unfolding combinations
combinations-IsPick Q zero ns h = ((refl, tt), tt)
combinations-IsPick Q (suc k) [] h = tt
combinations-IsPick Q (suc k) (n ∷ ns) h =
    All_joined (IsPick Q (suc k)) (map (◌∷◌ n) (combinations k ns)) (combinations (suc k) ns)
      (longer (combinations k ns) (combinations-IsPick Q k ns h.1))
      (combinations-IsPick Q (suc k) ns h.1)
  where
    longer : (ss : List (List ℕ)) → All (IsPick Q k) ss → All (IsPick Q (suc k)) (map (◌∷◌ n) ss)
    longer [] a = tt
    longer (s ∷ ss) a = ((ap suc (a.0).0, (h.0, (a.0).1)), longer ss a.1)

pub Nodup-of-map : (f : ℕ → ℕ) (ns : List ℕ) → Nodup (map f ns) → Nodup ns
Nodup-of-map f [] h = Nodup-nil
Nodup-of-map f (n ∷ ns) h =
    let (new, rest) = Nodup-cons.0 h in
    Nodup-cons.1 (λ there. new (mem-map_of_mem f there), Nodup-of-map f ns rest)

pub Nodup-Distinct : (ns : List ℕ) → Nodup ns → Distinct ns
Nodup-Distinct [] h = tt
Nodup-Distinct (n ∷ ns) h =
    let (new, rest) = Nodup-cons.0 h in (differ n ns new, Nodup-Distinct ns rest)
  where
    differ : (n : ℕ) (ms : List ℕ) → (Mem n ms → ⊥) → All (λ m. m ≢ n) ms
    differ n [] new = tt
    differ n (m ∷ ms) new = (
      λ e. new (subst (λ (k : ℕ). Mem n (k ∷ ms)) (sym e) mem-cons_self),
      differ n ms (λ there. new (mem-cons_of_mem m there)),
    )
