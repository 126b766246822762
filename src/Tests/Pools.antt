-- ===== src/Tests/Pools.antt =====
-- A pool of three nodes, two of them trusted, and the ring that is formed of it (shard/shard/topology.py).
use mathlib.Core.List.{Perm}
use shard_glm_image.Base.{
  ℕ, ◌+◌, ◌-◌, ◌==◌, ◌≡◌, refl, ◌||◌, some, List, [], ◌∷◌, arith, ℕ_discrete,
}
use shard_glm_image.Base.Sort.{insert_by, sort_by, Distinct}
use shard_glm_image.Base.Table.{update}
use shard_glm_image.Topology.Assign.{base_of, any, fill, finish, assign_layers}
use shard_glm_image.Topology.Head.{hops, loop_cost, without, each, permutations}
use shard_glm_image.Topology.Pins.{
  floor_of, raise, all_in, ends_in, starts_in, cover, cover_both, pin_floors, last_of, leaky,
  boundary_nodes,
}
use shard_glm_image.Topology.Tour.{
  count_from, pairs_of, flipped, nearest, sweep, two_opt, greedy, opted, nn_tour, nn_2opt,
  ends_tour, cheaper, over_tails, pin_order_oversize,
}
use shard_glm_image.Topology.Tour.Shorter.{Stable}
use shard_glm_image.Topology.Tour.Visits.{nn_2opt-Stable, pairs}
use shard_glm_image.Topology.Search.{
  chosen, set_size, combinations, Pool, Ring, heads_of, singles, with_tail, exhaustive, pin_orders,
  predict_step_ms, accepted, ring_at, first_ring, is_eligible, better, over_subsets, over_sizes,
  search,
}
use shard_glm_image.Topology.Search.Found.{IsServing}
use shard_glm_image.Topology.Search.Best.{Beats, search-Beats}
use shard_glm_image.Topology.Select.{
  keep_best, best_by_subnet, feasible_cap, walk, by_cap, k_min_of, required_cover, must_keep,
  add_new, trim, Selected, value_error, infeasible, formed, formed_of, clamped, widened,
  is_hopeless, found_in, select_usable, select_ring,
}
use shard_glm_image.Topology.Select.Served.{usable_of, select_ring-IsServing}

program : Unit {0}
unfolding ℕ_discrete insert_by sort_by update base_of any fill finish assign_layers hops loop_cost
    without each permutations floor_of raise all_in ends_in starts_in cover cover_both pin_floors
    last_of leaky boundary_nodes count_from pairs_of flipped nearest sweep two_opt greedy opted
    nn_tour nn_2opt ends_tour cheaper over_tails pin_order_oversize chosen set_size combinations
    heads_of singles with_tail exhaustive pin_orders predict_step_ms accepted ring_at first_ring
    is_eligible better over_subsets over_sizes search keep_best best_by_subnet feasible_cap walk
    by_cap k_min_of required_cover must_keep add_new trim formed_of widened is_hopeless found_in
    select_usable select_ring usable_of
program = tt

-- A node is as far from another as their numbers differ, and 3 is a stranger.
abbrev distance : ℕ → ℕ → ℕ
distance a b = (a - b) + (b - a)

abbrev pool : Pool
pool = record {
  L = distance;
  c_out = λ n. n;
  c_in = λ n. n;
  caps = λ n. 3;
  layer_ms = λ n. n;
  subnet = λ n. n;
  trust = λ n. n == 1 || n == 2;
  require = some 1;
  n_layers = 7;
  b_in = 2;
  b_out = 1;
}

abbrev nodes : List ℕ
nodes = 2 ∷ 3 ∷ 1 ∷ []

abbrev outcome : Selected
outcome = select_ring pool nodes [] 1

abbrev ring_of : Selected → Ring
ring_of value_error = record { rank = 0; order = []; alloc = λ n. 0 }
ring_of infeasible = record { rank = 0; order = []; alloc = λ n. 0 }
ring_of (formed ring dropped) = ring

abbrev dropped_of : Selected → List ℕ
dropped_of value_error = []
dropped_of infeasible = []
dropped_of (formed ring dropped) = dropped

-- The stranger stands in the middle.
ordered : (ring_of outcome).order ≡ 1 ∷ 3 ∷ 2 ∷ []
unfolding program
ordered = refl

is_formed : outcome ≡ formed (ring_of outcome) (dropped_of outcome)
unfolding program
is_formed = refl

select_ring-IsServing_example : IsServing (clamped pool) (usable_of pool nodes []) (ring_of outcome)
select_ring-IsServing_example =
    select_ring-IsServing pool nodes [] 1 (ring_of outcome) (dropped_of outcome) is_formed

-- The only trusted node besides the head is excluded.
untailed : select_ring pool nodes (2 ∷ []) 1 ≡ infeasible
unfolding program
untailed = refl

clash : select_ring pool nodes (1 ∷ []) 1 ≡ value_error
unfolding program
clash = refl

search-Beats_example : Beats pool 3 (combinations 3 nodes) (search pool nodes 2 3)
search-Beats_example = search-Beats pool nodes 2 3 3 (omega arith) (omega arith) (omega arith)

-- The heuristic order of the three nodes.
toured : nn_2opt distance (λ n. n) (λ n. n) nodes ≡ (1 ∷ 2 ∷ 3 ∷ [], 6)
unfolding program
toured = refl

nodes-Distinct : Distinct nodes
nodes-Distinct = (
  ((λ e. omega (arith, e)), ((λ e. omega (arith, e)), tt)),
  (((λ e. omega (arith, e)), tt), (tt, tt)),
)

nn_2opt-Stable_example :
    Perm (nn_2opt distance (λ n. n) (λ n. n) nodes).0 nodes
    × ((nn_2opt distance (λ n. n) (λ n. n) nodes).1
        ≡ loop_cost distance (λ n. n) (λ n. n) (nn_2opt distance (λ n. n) (λ n. n) nodes).0)
    × Stable distance
        (λ n. n)
        (λ n. n)
        (pairs distance (λ n. n) (λ n. n) nodes)
        (nn_2opt distance (λ n. n) (λ n. n) nodes).0
nn_2opt-Stable_example = nn_2opt-Stable distance (λ n. n) (λ n. n) nodes nodes-Distinct
