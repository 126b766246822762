-- ===== src/Topology/Search.antt =====
-- shard/shard/topology.py: `select_ring` with trusted nodes and without upload speeds, with `_pin_orders` and `_search`
-- in it. A set is walked in the order in which it was filled.
pub mod Picked
pub mod Orders
pub mod Found
pub mod Best
use shard_glm_image.Base.{
  ℕ, zero, suc, ◌+◌, ◌-◌, ◌*◌, ◌/◌, ◌==◌, Bool, true, false, not, ◌&&◌, ◌||◌, Option, none, some,
  List, [], ◌∷◌, ◌++◌, ltb, leb, if◌then◌else◌, length, take, map, min, max, sum_of,
}
use shard_glm_image.Base.Sort.{sort_by}
use shard_glm_image.Topology.Assign.{assign_layers, any}
use shard_glm_image.Topology.Head.{loop_cost, without, permutations}
use shard_glm_image.Topology.Pins.{pin_floors, all_in, ends_in, boundary_nodes}
use shard_glm_image.Topology.Tour.{range, count_from, pin_order_oversize}

-- `node_capacity`
unfoldable pub node_capacity : ℕ → ℕ → ℕ → ℕ
node_capacity free layer_vram kv = if ltb 0 (layer_vram + kv) then free / (layer_vram + kv) else 0

-- `n in ns`
abbrev pub among : ℕ → List ℕ → Bool
among n [] = false
among n (m ∷ ms) = m == n || among n ms

unfoldable pub chosen : (ℕ → Bool) → List ℕ → List ℕ
chosen test [] = []
chosen test (n ∷ ns) = let rest = chosen test ns in if test n then n ∷ rest else rest

-- `len(set(ns))`
unfoldable pub set_size : List ℕ → ℕ
set_size [] = 0
set_size (n ∷ ns) = let rest = set_size ns in if among n ns then rest else suc rest

-- `itertools.combinations`, in its order.
unfoldable pub combinations : ℕ → List ℕ → List (List ℕ)
combinations zero ns = [] ∷ []
combinations (suc k) [] = []
combinations (suc k) (n ∷ ns) = map (◌∷◌ n) (combinations k ns) ++ combinations (suc k) ns

-- What `select_ring` is told of the nodes and the model.
pub record Pool : Type 0 where
  pub L : ℕ → ℕ → ℕ
  pub c_out : ℕ → ℕ
  pub c_in : ℕ → ℕ
  pub caps : ℕ → ℕ
  pub layer_ms : ℕ → ℕ
  pub subnet : ℕ → ℕ
  pub trust : ℕ → Bool
  pub require : Option ℕ
  pub n_layers : ℕ
  pub b_in : ℕ
  pub b_out : ℕ

-- What `_search` finds.
pub record Ring : Type 0 where
  pub rank : ℕ
  pub order : List ℕ
  pub alloc : ℕ → ℕ

-- `require is not None and require not in ns`
abbrev pub misses : Option ℕ → List ℕ → Bool
misses none ns = false
misses (some r) ns = not (among r ns)

module _ (p : Pool) where
  abbrev pub cost_of : List ℕ → ℕ
  cost_of order = loop_cost p.L p.c_out p.c_in order

  abbrev pub by_cost : List ℕ → List ℕ → Bool
  by_cost o q = leb (cost_of o) (cost_of q)

  unfoldable pub heads_of : List ℕ → List ℕ
  unfolding chosen
  heads_of subset = elim p.require [ none ↦ chosen p.trust subset | some r ↦ r ∷ [] ]

  unfoldable pub singles : List ℕ → List ℕ → List (List ℕ)
  singles ends [] = []
  singles ends (h ∷ heads) =
      let rest = singles ends heads in if among h ends then (h ∷ []) ∷ rest else rest

  -- The permutations behind a head that end in a trusted node.
  unfoldable pub with_tail : ℕ → List (List ℕ) → List (List ℕ)
  unfolding ends_in
  with_tail h [] = []
  with_tail h (perm ∷ perms) =
      let rest = with_tail h perms in if ends_in p.trust perm then (h ∷ perm) ∷ rest else rest

  unfoldable pub exhaustive : List ℕ → List ℕ → List (List ℕ)
  unfolding with_tail permutations without
  exhaustive subset [] = []
  exhaustive subset (h ∷ heads) =
      let mids = without h subset in
      with_tail h (permutations (length mids) mids) ++ exhaustive subset heads

  abbrev pub or_nothing : Option (List ℕ) → List (List ℕ)
  or_nothing none = []
  or_nothing (some o) = o ∷ []

  -- `_pin_orders`
  unfoldable pub pin_orders : List ℕ → ℕ → List (List ℕ)
  unfolding heads_of singles exhaustive chosen pin_order_oversize sort_by loop_cost
  pin_orders subset k =
      let heads = heads_of subset in
      let ends = chosen p.trust subset in
      if k == 1
      then singles ends heads
      else if ltb 7 (k - 1)
      then or_nothing (pin_order_oversize p.L p.c_out p.c_in subset heads ends none)
      else sort_by by_cost (exhaustive subset heads)

  -- `predict_step_ms`
  unfoldable pub predict_step_ms : List ℕ → (ℕ → ℕ) → ℕ
  unfolding loop_cost
  predict_step_ms order alloc = cost_of order + sum_of (λ n. alloc n * p.layer_ms n) order

  unfoldable pub accepted : List ℕ → Option (ℕ → ℕ) → Option Ring
  unfolding all_in boundary_nodes predict_step_ms
  accepted order none = none
  accepted order (some alloc) =
      if all_in p.trust (boundary_nodes order alloc p.n_layers p.b_in p.b_out)
      then some (record { rank = predict_step_ms order alloc; order = order; alloc = alloc })
      else none

  -- The ring of an order, when it holds the boundary and the model.
  unfoldable pub ring_at : List ℕ → Option Ring
  unfolding pin_floors assign_layers accepted
  ring_at order = elim (pin_floors p.trust p.caps p.n_layers p.b_in p.b_out order) [
    | none ↦ none
    | some floors ↦ accepted order (assign_layers order p.n_layers p.caps p.layer_ms floors)
  ]

  unfoldable pub first_ring : List (List ℕ) → Option Ring
  unfolding ring_at
  first_ring [] = none
  first_ring (order ∷ orders) =
      let rest = first_ring orders in elim (ring_at order) [ none ↦ rest | some ring ↦ some ring ]

  unfoldable pub is_eligible : ℕ → List ℕ → Bool
  unfolding chosen set_size
  is_eligible k subset =
      not (misses p.require subset)
      && (not (ltb (length (chosen p.trust subset)) (if k == 1 then 1 else 2))
          && not (ltb (set_size (map p.subnet subset)) k))

  -- `if found is None or rank < found[0]`
  unfoldable pub better : Option Ring → Option Ring → Option Ring
  better found none = found
  better none (some ring) = some ring
  better (some best) (some ring) = if ltb ring.rank best.rank then some ring else some best

  unfoldable pub over_subsets : ℕ → List (List ℕ) → Option Ring → Option Ring
  unfolding is_eligible better first_ring pin_orders
  over_subsets k [] found = found
  over_subsets k (subset ∷ subsets) found =
      let hit = better found (first_ring (pin_orders subset k)) in
      over_subsets k subsets (if is_eligible k subset then hit else found)

  unfoldable pub over_sizes : List ℕ → List ℕ → Option Ring → Option Ring
  unfolding over_subsets combinations
  over_sizes usable [] found = found
  over_sizes usable (k ∷ ks) found =
      over_sizes usable ks (over_subsets k (combinations k usable) found)

  -- `_search`
  unfoldable pub search : List ℕ → ℕ → ℕ → Option Ring
  unfolding over_sizes count_from
  search usable k_lo k_hi = over_sizes usable (range k_lo (suc (min k_hi (length usable)))) none
