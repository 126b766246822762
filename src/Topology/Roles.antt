-- ===== src/Topology/Roles.antt =====
-- shard/shard/topology.py: what a node that the ring does without is used for (`_up`, `_relegate`). Uplinks are
-- in kbit/s, `subnet` numbers the subnets, and `caps` has an entry for the measured nodes.
pub mod Fitting
use shard_glm_image.Base.{
  ℕ, if◌then◌else◌, Option, none, some, List, [], ◌∷◌, Bool, true, false, not, ◌&&◌, ◌||◌, leb,
  ◌==◌, max,
}
use shard_glm_image.Topology.Assign.{any}
use shard_glm_image.Topology.Pins.{or_zero}

pub data Role : Type 0 where
  weight_seeder aggregator hot_standby decode_only_replica spot_check_verifier : Role

-- An uplink that is unmeasured or zero counts as a very slow one.
unfoldable pub up : (ℕ → Option ℕ) → ℕ → ℕ
up up_kbps n = max (or_zero (up_kbps n)) 500

-- `max` of a key over a node and more.
unfoldable pub most : (ℕ → ℕ) → ℕ → List ℕ → ℕ
most key n [] = key n
most key n (m ∷ order) = max (key n) (most key m order)

-- The arguments that every node is judged by.
pub record Pool : Type 0 where
  pub caps : ℕ → Option ℕ
  pub subnet : ℕ → ℕ
  pub up_kbps : ℕ → Option ℕ
  pub layer_ms : ℕ → ℕ
  pub trusted : Option (ℕ → Bool)
  pub boundary_subnets : List ℕ

-- `trusted is None or n in trusted`
unfoldable pub is_trusted : Option (ℕ → Bool) → ℕ → Bool
is_trusted none n = true
is_trusted (some trust) n = trust n

-- `subnet[n] in ring_subnets`
unfoldable pub in_ring : (ℕ → ℕ) → List ℕ → ℕ → Bool
unfolding any
in_ring subnet order n = any (λ s. subnet s == subnet n) order

-- The role of one dropped node beside the ring `first ∷ order`.
unfoldable pub role_of : Pool → ℕ → List ℕ → ℕ → Role
unfolding up most is_trusted in_ring any
role_of p first order n =
    let twin = in_ring p.subnet (first ∷ order) n in
    if or_zero (p.caps n) == 0
    then weight_seeder
    else if leb (most (up p.up_kbps) first order) (up p.up_kbps n) && not twin
    then aggregator
    else if twin && (is_trusted p.trusted n || not (any (λ b. b == p.subnet n) p.boundary_subnets))
    then hot_standby
    else if leb (p.layer_ms n) (most p.layer_ms first order)
    then decode_only_replica
    else spot_check_verifier

unfoldable pub relegate : Pool → List ℕ → List ℕ → List (ℕ × Role)
unfolding role_of
relegate p [] dropped = []
relegate p (first ∷ order) [] = []
relegate p (first ∷ order) (n ∷ dropped) =
    (n, role_of p first order n) ∷ relegate p (first ∷ order) dropped
