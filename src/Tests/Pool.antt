-- ===== src/Tests/Pool.antt =====
-- A pool of three nodes, and the same after one has dropped (shard/shard/scheduler.py).
use shard_glm_image.Base.{ℕ, ◌≡◌, ◌≢◌, refl, List, [], ◌∷◌, arith, All, ℕ_discrete}
use shard_glm_image.Base.Sort.{sort_by, Distinct}
use shard_glm_image.Base.Table.{update}
use shard_glm_image.Scheduler.{
  Scheduler, Fit, blocks, raised, value_error, put_node, register, pop_node, deregister, ids_of,
  vram_of, capacity, capacities, le_share, floor_share, hand_out, distribute, lay, laid, allocate,
  on_drop,
}
use shard_glm_image.Scheduler.Blocks.{IsDeployable, owners, allocate_complete, on_drop-IsDeployable}

program : Unit {0}
unfolding put_node register pop_node deregister vram_of capacity capacities le_share floor_share
    hand_out distribute lay laid allocate on_drop update sort_by ℕ_discrete
program = tt

abbrev fit : Fit
fit = record { per = 2; slack = 3 }

abbrev pool : Scheduler
pool = record { total_layers = 10; nodes = (1, 15) ∷ (2, 27) ∷ (3, 11) ∷ [] }

abbrev plan : List (ℕ × ℕ × ℕ)
plan = (2, 0, 5) ∷ (1, 5, 8) ∷ (3, 8, 10) ∷ []

registered : register (register (register (record pool { nodes = [] }) 1 15) 2 27) 3 11 ≡ pool
unfolding program
registered = refl

allocated : allocate pool fit ≡ blocks plan
unfolding program
allocated = refl

dropped : on_drop pool 3 fit ≡ blocks ((2, 0, 7) ∷ (1, 7, 10) ∷ [])
unfolding program
dropped = refl

dropped_large : on_drop pool 2 fit ≡ blocks ((1, 0, 6) ∷ (3, 6, 10) ∷ [])
unfolding program
dropped_large = refl

too_small : allocate (record pool { total_layers = 23 }) fit ≡ raised value_error
unfolding program
too_small = refl

pool-Distinct : Distinct (ids_of pool.nodes)
pool-Distinct = (((λ p. cc), ((λ p. cc), tt)), (((λ p. cc), tt), (tt, tt)))

abbrev cap : ℕ → ℕ
cap = capacities pool fit

allocate_complete_example :
    (bs : List (ℕ × ℕ × ℕ)) × (allocate pool fit ≡ blocks bs) × IsDeployable pool fit bs
unfolding program
allocate_complete_example =
    allocate_complete pool fit pool-Distinct (omega arith) (omega arith) (omega arith)

on_drop-IsDeployable_example :
    IsDeployable (deregister pool 3) fit ((2, 0, 7) ∷ (1, 7, 10) ∷ [])
    × All (λ k. k ≢ 3) (owners ((2, 0, 7) ∷ (1, 7, 10) ∷ []))
on_drop-IsDeployable_example =
    on_drop-IsDeployable pool fit 3 ((2, 0, 7) ∷ (1, 7, 10) ∷ []) pool-Distinct dropped
