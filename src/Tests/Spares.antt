-- ===== src/Tests/Spares.antt =====
-- The roles of nodes beside a ring of two stages (shard/shard/topology.py).
use shard_glm_image.Base.{
  ℕ, ◌≡◌, refl, none, some, [], ◌∷◌, All, Bool, true, false, map, ◌==◌, if◌then◌else◌, ℕ_discrete,
}
use shard_glm_image.Topology.Assign.{any}
use shard_glm_image.Topology.Pins.{leaky, last_of, boundary_nodes}
use shard_glm_image.Topology.Roles.{
  Role, weight_seeder, aggregator, hot_standby, decode_only_replica, spot_check_verifier, up, most,
  Pool, is_trusted, in_ring, role_of, relegate,
}
use shard_glm_image.Topology.Roles.Fitting.{Fits, relegate-Fits}

-- Nodes 0, 1 and 5 are the ring, and nodes 6 and 8 are not trusted.
abbrev trust : ℕ → Bool
trust n = if n == 6 then false else if n == 8 then false else true

abbrev subnet : ℕ → ℕ
subnet n = if n == 4 then 0 else if n == 6 then 1 else if n == 8 then 0 else n

abbrev alloc : ℕ → ℕ
alloc n = 5

abbrev spares : Pool
spares = record {
  caps = λ n. if n == 2 then none else some 4;
  subnet = subnet;
  up_kbps = λ n. if n == 3 then some 90000 else if n == 7 then none else some 20000;
  layer_ms = λ n. if n == 7 then 30 else 6;
  trusted = some trust;
  boundary_subnets = 0 ∷ 5 ∷ 0 ∷ 5 ∷ [];
}

program : Unit {0}
unfolding any leaky last_of boundary_nodes up most is_trusted in_ring role_of relegate ℕ_discrete
program = tt

-- Node 6 shares a subnet with node 1, which sees no leaky layer, and node 8 with node 0, which does.
relegate_lem :
    relegate spares (0 ∷ 1 ∷ 5 ∷ []) (2 ∷ 3 ∷ 4 ∷ 6 ∷ 7 ∷ 8 ∷ [])
    ≡ (2, weight_seeder)
      ∷ (3, aggregator)
      ∷ (4, hot_standby)
      ∷ (6, hot_standby)
      ∷ (7, spot_check_verifier)
      ∷ (8, decode_only_replica)
      ∷ []
unfolding program
relegate_lem = refl

relegate_empty : relegate spares [] (2 ∷ []) ≡ []
unfolding program
relegate_empty = refl

relegate-Fits_example :
    (map (λ (e : ℕ × Role). e.0) (relegate spares (0 ∷ 1 ∷ 5 ∷ []) (2 ∷ 3 ∷ 4 ∷ 6 ∷ 7 ∷ 8 ∷ []))
      ≡ 2 ∷ 3 ∷ 4 ∷ 6 ∷ 7 ∷ 8 ∷ [])
    × All
        (λ (e : ℕ × Role). Fits spares (0 ∷ 1 ∷ 5 ∷ []) e.0 e.1)
        (relegate spares (0 ∷ 1 ∷ 5 ∷ []) (2 ∷ 3 ∷ 4 ∷ 6 ∷ 7 ∷ 8 ∷ []))
relegate-Fits_example = relegate-Fits spares 0 (1 ∷ 5 ∷ []) (2 ∷ 3 ∷ 4 ∷ 6 ∷ 7 ∷ 8 ∷ [])
