-- ===== src/Topology/Tour.antt =====
-- shard/shard/topology.py: the orders that are found without an exact search, `_nn_2opt` and `_pin_order_oversize`.
-- Latencies are natural numbers, so that more than the margin of 1e-9 between two of them is any difference at all; a
-- set is walked in the order of its list, on which only the choice between equals depends.
pub mod Shorter
pub mod Visits
use shard_glm_image.Base.{
  ℕ, zero, suc, ◌+◌, ◌-◌, ◌==◌, Bool, true, false, Option, none, some, List, [], ◌∷◌, ◌++◌, ltb,
  if◌then◌else◌, length, take, drop, map, reverse,
}
use shard_glm_image.Topology.Head.{loop_cost, without}

-- `n` numbers from `i` on.
unfoldable pub count_from : ℕ → ℕ → List ℕ
count_from i zero = []
count_from i (suc n) = i ∷ count_from (suc i) n

-- `range(a, b)`
abbrev pub range : ℕ → ℕ → List ℕ
range a b = count_from a (b - a)

-- The pairs of two nested loops: `i` below `m`, and `j` from `i + 1` to below `n`.
unfoldable pub pairs_of : List ℕ → ℕ → List (ℕ × ℕ)
unfolding count_from
pairs_of [] n = []
pairs_of (i ∷ is) n = map (λ j. (i, j)) (range (suc i) n) ++ pairs_of is n

-- `tour[:i] + tour[i:j + 1][::-1] + tour[j + 1:]`
unfoldable pub flipped : ℕ → ℕ → List ℕ → List ℕ
flipped i j tour =
    take i tour ++ reverse (take (suc j - i) (drop i tour)) ++ drop (suc j - i) (drop i tour)

-- `min` with a key, of a list that is not empty.
unfoldable pub nearest : (ℕ → ℕ) → ℕ → List ℕ → ℕ
nearest key best [] = best
nearest key best (n ∷ ns) = if ltb (key n) (key best) then nearest key n ns else nearest key best ns

module _ (L : ℕ → ℕ → ℕ) (c_out c_in : ℕ → ℕ) where
  -- One round of the 2-opt: each flip that is shorter is kept at once.
  unfoldable pub sweep : List (ℕ × ℕ) → List ℕ → Bool → List ℕ × Bool
  unfolding loop_cost flipped
  sweep [] tour improved = (tour, improved)
  sweep ((i, j) ∷ pairs) tour improved =
      let shorter = sweep pairs (flipped i j tour) true in
      let kept = sweep pairs tour improved in
      if ltb (loop_cost L c_out c_in (flipped i j tour)) (loop_cost L c_out c_in tour)
      then shorter
      else kept

  abbrev pub again : (List ℕ → List ℕ) → List ℕ × Bool → List ℕ
  again rest (tour, true) = rest tour
  again rest (tour, false) = tour

  -- `while improved`
  unfoldable pub two_opt : List (ℕ × ℕ) → ℕ → List ℕ → List ℕ
  unfolding sweep
  two_opt pairs zero tour = tour
  two_opt pairs (suc fuel) tour = again (two_opt pairs fuel) (sweep pairs tour false)

  -- The tour that goes on from `last` to the nearest that is left, `rest` being as long as the fuel.
  unfoldable pub greedy : ℕ → ℕ → List ℕ → List ℕ
  unfolding nearest without
  greedy zero last rest = []
  greedy (suc fuel) last [] = []
  greedy (suc fuel) last (n ∷ rest) =
      let nxt = nearest (L last) n rest in nxt ∷ greedy fuel nxt (without nxt (n ∷ rest))

  -- A round that changes the tour makes it shorter, so its length is enough fuel.
  unfoldable pub opted : List (ℕ × ℕ) → List ℕ → List ℕ
  unfolding two_opt loop_cost
  opted pairs tour = two_opt pairs (suc (loop_cost L c_out c_in tour)) tour

  unfoldable pub nn_tour : List ℕ → List ℕ
  unfolding nearest greedy without
  nn_tour [] = []
  nn_tour (n ∷ nodes) =
      let start = nearest c_out n nodes in
      start ∷ greedy (length nodes) start (without start (n ∷ nodes))

  -- `_nn_2opt`, of distinct nodes.
  unfoldable pub nn_2opt : List ℕ → List ℕ × ℕ
  unfolding opted nn_tour pairs_of count_from loop_cost
  nn_2opt nodes =
      let tour = opted (pairs_of (range 0 (length nodes - 1)) (length nodes)) (nn_tour nodes) in
      (tour, loop_cost L c_out c_in tour)

  -- The tour from `h` to `t` in `_pin_order_oversize`.
  unfoldable pub ends_tour : List ℕ → ℕ → ℕ → List ℕ
  unfolding greedy without opted pairs_of count_from
  ends_tour nodes h t =
      let mid = without t (without h nodes) in
      opted (pairs_of (range 1 (length mid)) (suc (length mid)))
        (h ∷ (greedy (length mid) h mid ++ t ∷ []))

  unfoldable pub cheaper : Option (List ℕ) → List ℕ → Option (List ℕ)
  unfolding loop_cost
  cheaper none tour = some tour
  cheaper (some best) tour =
      if ltb (loop_cost L c_out c_in tour) (loop_cost L c_out c_in best)
      then some tour
      else some best

  unfoldable pub over_tails : List ℕ → ℕ → List ℕ → Option (List ℕ) → Option (List ℕ)
  unfolding cheaper ends_tour
  over_tails nodes h [] best = best
  over_tails nodes h (t ∷ ends) best =
      let best' = if t == h then best else cheaper best (ends_tour nodes h t) in
      over_tails nodes h ends best'

  -- `_pin_order_oversize`
  unfoldable pub pin_order_oversize : List ℕ → List ℕ → List ℕ → Option (List ℕ) → Option (List ℕ)
  unfolding over_tails
  pin_order_oversize nodes [] ends best = best
  pin_order_oversize nodes (h ∷ heads) ends best =
      pin_order_oversize nodes heads ends (over_tails nodes h ends best)
