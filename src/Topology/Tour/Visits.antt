-- ===== src/Topology/Tour/Visits.antt =====
-- The tours of shard/shard/topology.py visit each node once.
use mathlib.Core.List.{
  Perm, append_assoc, reverse_perm, Mem, mem-cons_self, mem-cons_of_mem, mem_of_ne_of_mem,
  perm_append_singleton,
}
use mathlib.Core.List.Perm
use shard_glm_image.Base.{
  ℕ, zero, suc, ◌-◌, ◌≤◌, ◌≡◌, ◌≢◌, ◌∙◌, ◌⊎◌, inl, inr, refl, sym, ap, subst, Bool-cases, List, [],
  ◌∷◌, ◌++◌, ltb, All, arith, ◌==◌, take, drop, reverse, length, map,
}
use shard_glm_image.Base.Prefix.{take-drop}
use shard_glm_image.Base.Sort.{Distinct}
use shard_glm_image.Topology.Head.{loop_cost, without}
use shard_glm_image.Topology.Head.Cheapest.{without-perm, length-without}
use shard_glm_image.Topology.Tour.{
  flipped, nearest, greedy, opted, nn_tour, nn_2opt, pairs_of, count_from, range, ends_tour,
}
use shard_glm_image.Topology.Tour.Shorter.{opted_keeps, opted-Stable, Stable, Keeps}

flipped-perm : (i j : ℕ) (tour : List ℕ) → Perm (flipped i j tour) tour
unfolding flipped
flipped-perm i j tour =
    let behind = drop i tour in
    let segment = take (suc j - i) behind in
    let rest = drop (suc j - i) behind in
    let whole : (take i tour ++ segment) ++ rest ≡ tour =
      append_assoc (take i tour) segment rest
      ∙ ap (◌++◌ (take i tour)) (sym (take-drop (suc j - i) behind))
      ∙ sym (take-drop i tour) in
    subst (Perm ((take i tour ++ reverse segment) ++ rest)) whole
      (Perm.append (Perm.append (Perm.refl (take i tour)) (reverse_perm segment)) (Perm.refl rest))

nearest_among :
    (key : ℕ → ℕ) (best : ℕ) (ns : List ℕ)
    → (nearest key best ns ≡ best) ⊎ Mem (nearest key best ns) ns
unfolding nearest
nearest_among key best [] = inl refl
nearest_among key best (n ∷ ns) = elim (Bool-cases (ltb (key n) (key best))) [
  | inl y ↦ rw y (elim (nearest_among key n ns) [
    | inl e ↦ inr (subst (λ (m : ℕ). Mem m (n ∷ ns)) (sym e) mem-cons_self)
    | inr m ↦ inr (mem-cons_of_mem n m)
  ])
  | inr no_less ↦
      rw no_less
        (elim (nearest_among key best ns) [ inl e ↦ inl e | inr m ↦ inr (mem-cons_of_mem n m) ])
]

nearest-Mem : (key : ℕ → ℕ) (best : ℕ) (ns : List ℕ) → Mem (nearest key best ns) (best ∷ ns)
nearest-Mem key best ns = elim (nearest_among key best ns) [
  | inl e ↦ subst (λ (m : ℕ). Mem m (best ∷ ns)) (sym e) mem-cons_self
  | inr m ↦ mem-cons_of_mem best m
]

All-without :
    (P : ℕ → Type 0) (head : ℕ) (order : List ℕ) → All P order → All P (without head order)
unfolding without
All-without P head [] h = tt
All-without P head (n ∷ order) h = elim (Bool-cases (n == head)) [
  | inl y ↦ rw y (All-without P head order h.1)
  | inr differs ↦ rw differs (h.0, All-without P head order h.1)
]

without-Distinct : (head : ℕ) (order : List ℕ) → Distinct order → Distinct (without head order)
unfolding without
without-Distinct head [] h = tt
without-Distinct head (n ∷ order) h = elim (Bool-cases (n == head)) [
  | inl y ↦ rw y (without-Distinct head order h.1)
  | inr differs ↦
      rw differs (All-without (λ m. m ≢ n) head order h.0, without-Distinct head order h.1)
]

-- The order begins with a node.
abbrev pub HeadedBy : ℕ → List ℕ → Type 0
HeadedBy h [] = ⊥
HeadedBy h (n ∷ order) = n ≡ h

flipped-HeadedBy :
    (h i j : ℕ) (tour : List ℕ) → HeadedBy h tour → HeadedBy h (flipped (suc i) j tour)
unfolding flipped
flipped-HeadedBy h i j [] starts = absurd starts
flipped-HeadedBy h i j (n ∷ tour) starts = starts

module _ (L : ℕ → ℕ → ℕ) (c_out c_in : ℕ → ℕ) (h : ℕ) where
  Keeps-row :
      (i : ℕ) (js : List ℕ) (ps : List (ℕ × ℕ))
      → Keeps L c_out c_in (HeadedBy h) ps
      → Keeps L c_out c_in (HeadedBy h) (map (λ j. (suc i, j)) js ++ ps)
  Keeps-row i [] ps steps = steps
  Keeps-row i (j ∷ js) ps steps =
      ((λ tour starts. flipped-HeadedBy h i j tour starts), Keeps-row i js ps steps)

  pub Keeps-pairs_of :
      (i m n : ℕ) → Keeps L c_out c_in (HeadedBy h) (pairs_of (count_from (suc i) m) n)
  unfolding pairs_of count_from
  Keeps-pairs_of i zero n = tt
  Keeps-pairs_of i (suc m) n =
      Keeps-row i (range (suc (suc i)) n) (pairs_of (count_from (suc (suc i)) m) n)
        (Keeps-pairs_of (suc i) m n)

module _ (L : ℕ → ℕ → ℕ) (c_out c_in : ℕ → ℕ) where
  greedy-perm :
      (fuel last : ℕ) (rest : List ℕ)
      → length rest ≤ fuel
      → Distinct rest
      → Perm (greedy L c_out c_in fuel last rest) rest
  unfolding greedy
  greedy-perm zero last [] enough d = Perm.refl []
  greedy-perm zero last (n ∷ rest) enough d = absurd (omega (arith, enough))
  greedy-perm (suc fuel) last [] enough d = Perm.refl []
  greedy-perm (suc fuel) last (n ∷ rest) enough d =
      let nxt = nearest (L last) n rest in
      let there = nearest-Mem (L last) n rest in
      Perm.trans
        (Perm.cons nxt (
          greedy-perm fuel nxt (without nxt (n ∷ rest))
            (omega (arith, enough, length-without nxt (n ∷ rest) there))
            (without-Distinct nxt (n ∷ rest) d)))
        (without-perm nxt (n ∷ rest) d there)

  nn_tour-perm : (nodes : List ℕ) → Distinct nodes → Perm (nn_tour L c_out c_in nodes) nodes
  unfolding nn_tour
  nn_tour-perm [] d = Perm.refl []
  nn_tour-perm (n ∷ nodes) d =
      let start = nearest c_out n nodes in
      let there = nearest-Mem c_out n nodes in
      Perm.trans
        (Perm.cons start (
          greedy-perm (length nodes) start (without start (n ∷ nodes))
            (omega (arith, length-without start (n ∷ nodes) there))
            (without-Distinct start (n ∷ nodes) d)))
        (without-perm start (n ∷ nodes) d there)

  abbrev pub pairs : List ℕ → List (ℕ × ℕ)
  pairs nodes = pairs_of (range 0 (length nodes - 1)) (length nodes)

  flips-perm :
      (ps : List (ℕ × ℕ)) (nodes : List ℕ) → Keeps L c_out c_in (λ tour. Perm tour nodes) ps
  flips-perm [] nodes = tt
  flips-perm ((i, j) ∷ ps) nodes =
      ((λ tour p. Perm.trans (flipped-perm i j tour) p), flips-perm ps nodes)

  opted-perm :
      (ps : List (ℕ × ℕ)) (tour nodes : List ℕ)
      → Perm tour nodes
      → Perm (opted L c_out c_in ps tour) nodes
  opted-perm ps tour nodes p =
      opted_keeps L c_out c_in (λ t. Perm t nodes) ps tour (flips-perm ps nodes) p

  -- The heuristic for large pools visits each of the nodes once, with the cost that it states, in an order that no
  -- reversal of a segment makes cheaper.
  pub nn_2opt-Stable :
      (nodes : List ℕ)
      → Distinct nodes
      → Perm (nn_2opt L c_out c_in nodes).0 nodes
        × ((nn_2opt L c_out c_in nodes).1 ≡ loop_cost L c_out c_in (nn_2opt L c_out c_in nodes).0)
        × Stable L c_out c_in (pairs nodes) (nn_2opt L c_out c_in nodes).0
  unfolding nn_2opt
  nn_2opt-Stable nodes d = (
    opted-perm (pairs nodes) (nn_tour L c_out c_in nodes) nodes (nn_tour-perm nodes d),
    refl,
    (opted-Stable L c_out c_in (pairs nodes) (nn_tour L c_out c_in nodes)).0,
  )

  -- The order of the oversize search goes over the nodes from the head that it was given.
  pub ends_tour-perm :
      (nodes : List ℕ) (h t : ℕ)
      → Distinct nodes
      → Mem h nodes
      → Mem t nodes
      → t ≢ h
      → Perm (ends_tour L c_out c_in nodes h t) nodes
        × HeadedBy h (ends_tour L c_out c_in nodes h t)
  unfolding ends_tour
  ends_tour-perm nodes h t d here there differ =
      let mid = without t (without h nodes) in
      let left : Mem t (without h nodes) =
        mem_of_ne_of_mem differ ((Perm.mem_iff (without-perm h nodes d here)).1 there) in
      let path = greedy L c_out c_in (length mid) h mid in
      let ps = pairs_of (range 1 (length mid)) (suc (length mid)) in
      (
        opted-perm ps (h ∷ (path ++ t ∷ [])) nodes (
            Perm.trans
              (Perm.cons h (
                Perm.trans (perm_append_singleton t path) (
                  Perm.trans
                    (Perm.cons t (
                      greedy-perm (length mid) h mid (omega arith)
                        (without-Distinct t (without h nodes) (without-Distinct h nodes d))))
                    (without-perm t (without h nodes) (without-Distinct h nodes d) left))))
              (without-perm h nodes d here)),
        opted_keeps L c_out c_in (HeadedBy h) ps (h ∷ (path ++ t ∷ []))
            (Keeps-pairs_of L c_out c_in h 0 (length mid - 1) (suc (length mid))) refl,
      )
