-- ===== src/Tests/Rings.antt =====
-- Layers divided over three nodes (shard/shard/topology.py).
use shard_glm_image.Base.{
  inr, All, Bool, true, false, ◌+◌, ◌*◌, ℕ, ◌≡◌, refl, Option, none, some, List, [], ◌∷◌, arith,
  ℕ_discrete, if◌then◌else◌, ◌==◌, ◌≤◌,
}
use shard_glm_image.Base.Sort.{sort_by, le_key, Distinct}
use shard_glm_image.Base.Table.{update}
use shard_glm_image.Topology.Assign.{base_of, any, fill, finish, assign_layers}
use shard_glm_image.Topology.Assign.Fill.{cost_of}
use mathlib.Core.List.{Perm}
use mathlib.Core.List.Perm
use shard_glm_image.Topology.Head.{
  hops, loop_cost, without, each, permutations, best_of, min_by, pinned_first, head_first,
}
use shard_glm_image.Topology.Head.Cheapest.{head_first-loop_cost}
use shard_glm_image.Topology.Pins.{
  floor_of, raise, all_in, cover, ends_in, starts_in, cover_both, pin_floors, leaky, last_of,
  boundary_nodes, blocks,
}
use shard_glm_image.Topology.Pins.Held.{holder, pin_floors-blocks}
use shard_glm_image.Topology.Pins.Safe.{pin_floors-assign_layers}
use shard_glm_image.Topology.Assign.Correct.{
  IsValid, assign_layers-IsValid, assign_layers_complete, assign_layers-optimal,
}

abbrev order : List ℕ
order = 0 ∷ 1 ∷ 2 ∷ []

abbrev pick : ℕ → ℕ → ℕ → ℕ → ℕ
pick a b c n = if n == 0 then a else if n == 1 then b else c

abbrev caps : ℕ → ℕ
caps = pick 10 4 6

abbrev layer_ms : ℕ → ℕ
layer_ms = pick 9 2 5

abbrev floors : ℕ → Option ℕ
floors n = if n == 0 then some 2 else none

-- Node 1 is full, node 2 is next, and node 0 keeps its floor.
abbrev assigned : ℕ → ℕ
assigned = (fill caps (sort_by (le_key layer_ms) order) (base_of floors) 8).0

program : Unit {0}
unfolding update base_of any fill finish assign_layers sort_by ℕ_discrete
program = tt

found : assign_layers order 12 caps layer_ms floors ≡ some assigned
unfolding program
found = refl

assigned_lem : (assigned 0 ≡ 2) × (assigned 1 ≡ 4) × (assigned 2 ≡ 6)
unfolding program
assigned_lem = (refl, refl, refl)

too_many : assign_layers order 21 caps layer_ms floors ≡ none
unfolding program
too_many = refl

order-Distinct : Distinct order
order-Distinct = (((λ p. cc), ((λ p. cc), tt)), (((λ p. cc), tt), (tt, tt)))

-- Another valid division.
abbrev even : ℕ → ℕ
even n = 4

even-IsValid : IsValid order 12 caps floors even
unfolding base_of
even-IsValid = record {
  bounds =
      ((omega arith, omega arith), ((omega arith, omega arith), ((omega arith, omega arith), tt)));
  total = refl;
}

assign_layers-IsValid_example : IsValid order 12 caps floors assigned
assign_layers-IsValid_example =
    assign_layers-IsValid order 12 caps layer_ms floors order-Distinct assigned found

assign_layers_complete_example :
    (alloc : ℕ → ℕ) × (assign_layers order 12 caps layer_ms floors ≡ some alloc)
assign_layers_complete_example =
    assign_layers_complete order 12 caps layer_ms floors order-Distinct even (omega arith)
      even-IsValid

assign_layers-optimal_example : cost_of layer_ms assigned order ≤ cost_of layer_ms even order
assign_layers-optimal_example =
    assign_layers-optimal order 12 caps layer_ms floors order-Distinct assigned even found
      even-IsValid

-- Node 1 may not see the two layers at the front and the three at the back.
abbrev trust : ℕ → Bool
trust n = if n == 1 then false else true

abbrev pinned : ℕ → Option ℕ
pinned = raise (raise (λ n. none) 0 2) 2 3

abbrev shielded : ℕ → ℕ
shielded = (fill caps (sort_by (le_key layer_ms) order) (base_of pinned) 6).0

pins : Unit {0}
unfolding program floor_of raise all_in cover ends_in starts_in cover_both pin_floors leaky last_of
    boundary_nodes
pins = tt

pinned_lem : pin_floors trust caps 12 2 3 order ≡ some pinned
unfolding pins
pinned_lem = refl

shielded_lem : assign_layers order 12 caps layer_ms pinned ≡ some shielded
unfolding pins
shielded_lem = refl

boundary_lem : boundary_nodes order shielded 12 2 3 ≡ 0 ∷ 2 ∷ 0 ∷ 2 ∷ []
unfolding pins
boundary_lem = refl

untrusted_end : pin_floors trust caps 12 3 2 (1 ∷ 0 ∷ 2 ∷ []) ≡ none
unfolding pins
untrusted_end = refl

pin_floors-assign_layers_example : All (λ n. trust n ≡ true) (boundary_nodes order shielded 12 2 3)
pin_floors-assign_layers_example =
    pin_floors-assign_layers trust caps layer_ms 12 2 3 order pinned shielded order-Distinct
      pinned_lem shielded_lem

-- The hop from 0 to 1 is slow.
abbrev delay : ℕ → ℕ → ℕ
delay a b = if a + b == 1 then 50 else 10 * a + b

searches : Unit {0}
unfolding program last_of hops loop_cost without each permutations best_of min_by pinned_first
    head_first
searches = tt

permutations_lem :
    permutations 3 (1 ∷ 2 ∷ 3 ∷ [])
    ≡ (1 ∷ 2 ∷ 3 ∷ [])
      ∷ (1 ∷ 3 ∷ 2 ∷ [])
      ∷ (2 ∷ 1 ∷ 3 ∷ [])
      ∷ (2 ∷ 3 ∷ 1 ∷ [])
      ∷ (3 ∷ 1 ∷ 2 ∷ [])
      ∷ (3 ∷ 2 ∷ 1 ∷ [])
      ∷ []
unfolding searches
permutations_lem = refl

-- The order that starts at node 0 goes by node 2 first.
head_first_lem : head_first delay (λ n. 5) (λ n. n) 0 (1 ∷ 0 ∷ 2 ∷ []) ≡ some (0 ∷ 2 ∷ 1 ∷ [])
unfolding searches
head_first_lem = refl

head_first_start : head_first delay (λ n. 5) (λ n. n) 1 (1 ∷ 0 ∷ 2 ∷ []) ≡ some (1 ∷ 0 ∷ 2 ∷ [])
unfolding searches
head_first_start = refl

mixed-Distinct : Distinct (1 ∷ 0 ∷ 2 ∷ [])
mixed-Distinct = (((λ p. cc), ((λ p. cc), tt)), (((λ p. cc), tt), (tt, tt)))

head_first-loop_cost_example :
    (best : List ℕ) × (head_first delay (λ n. 5) (λ n. n) 0 (1 ∷ 0 ∷ 2 ∷ []) ≡ some (0 ∷ best))
    × Perm (0 ∷ best) (1 ∷ 0 ∷ 2 ∷ [])
    × (loop_cost delay (λ n. 5) (λ n. n) (0 ∷ best)
        ≤ loop_cost delay (λ n. 5) (λ n. n) (0 ∷ 1 ∷ 2 ∷ []))
head_first-loop_cost_example =
    head_first-loop_cost delay (λ n. 5) (λ n. n) 0 1 (0 ∷ 2 ∷ []) (1 ∷ 2 ∷ []) mixed-Distinct
      (omega arith) (omega arith) (Perm.swap 1 0 (2 ∷ []))

-- Layer 10 of the shielded division is with node 2.
held_lem : holder (blocks shielded 0 order) 10 ≡ some 2
unfolding pins blocks holder
held_lem = refl

pin_floors-blocks_example :
    (n : ℕ) × (holder (blocks shielded 0 order) 10 ≡ some n) × (trust n ≡ true)
pin_floors-blocks_example =
    pin_floors-blocks trust caps layer_ms 12 2 3 order pinned shielded 10 order-Distinct pinned_lem
      shielded_lem (omega arith) (inr (omega arith))
