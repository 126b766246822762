-- ===== src/Topology/Pins.antt =====
-- shard/shard/topology.py: the stages that see leaky layers, and the floors that keep those layers on
-- trusted nodes (`_boundary_nodes`, and `_pin_floors` inside `select_ring`). `trust` is the set of the
-- trusted nodes, and `b_in` and `b_out` are the
-- boundaries after `select_ring` clamped them to the depth of the model.
pub mod Cover
pub mod Held
pub mod Safe
use shard_glm_image.Base.{
  ℕ, ◌+◌, ◌-◌, ite, if◌then◌else◌, Option, none, some, List, [], ◌∷◌, ◌++◌, Bool, true, false, not,
  ◌&&◌, ◌||◌, ltb, leb, ◌==◌, ℕ_discrete, min, max, reverse,
}

abbrev pub or_zero : Option ℕ → ℕ
or_zero none = 0
or_zero (some f) = f

-- `floors.get(n, 0)`
unfoldable pub floor_of : (ℕ → Option ℕ) → ℕ → ℕ
floor_of floors n = or_zero (floors n)

-- `floors[nd] = max(floors.get(nd, 0), take)`
unfoldable pub raise : (ℕ → Option ℕ) → ℕ → ℕ → ℕ → Option ℕ
unfolding floor_of
raise floors nd take k = ite (ℕ_discrete k nd) (some (max (floor_of floors nd) take)) (floors k)

-- `all(n in trust for n in order)`
unfoldable pub all_in : (ℕ → Bool) → List ℕ → Bool
all_in trust [] = true
all_in trust (n ∷ order) = trust n && all_in trust order

module _ (trust : ℕ → Bool) where
  -- `order[0] not in trust or order[-1] not in trust`, of an order that is not empty.
  unfoldable pub ends_in : List ℕ → Bool
  ends_in [] = false
  ends_in (n ∷ []) = trust n
  ends_in (n ∷ m ∷ order) = ends_in (m ∷ order)

  unfoldable pub starts_in : List ℕ → Bool
  starts_in [] = false
  starts_in (n ∷ order) = trust n

module _ (trust : ℕ → Bool) (caps : ℕ → ℕ) where
  -- One of the two loops: floors for `need` leaky layers on the first nodes, all of them trusted.
  unfoldable pub cover : ℕ → List ℕ → (ℕ → Option ℕ) → Option (ℕ → Option ℕ)
  unfolding raise
  cover need [] floors = if need == 0 then some floors else none
  cover need (nd ∷ order) floors =
      let take = min (caps nd) need in
      let rest = cover (need - take) order (raise floors nd take) in
      if need == 0 then some floors else if trust nd then rest else none

  -- The two loops, from the front and from the back.
  unfoldable pub cover_both : ℕ → ℕ → List ℕ → Option (ℕ → Option ℕ)
  unfolding cover
  cover_both b_in b_out order = elim (cover b_in order (λ n. none)) [
    | none ↦ none
    | some floors ↦ cover b_out (reverse order) floors
  ]

  unfoldable pub pin_floors : ℕ → ℕ → ℕ → List ℕ → Option (ℕ → Option ℕ)
  unfolding all_in starts_in ends_in cover_both
  pin_floors n_layers b_in b_out order =
      if not (starts_in trust order && ends_in trust order)
      then none
      else if leb n_layers (b_in + b_out)
      then if all_in trust order then some (λ n. none) else none
      else cover_both b_in b_out order

-- The nodes of the loop of `_boundary_nodes`, from layer `lo` on.
unfoldable pub leaky : (ℕ → ℕ) → ℕ → ℕ → ℕ → List ℕ → List ℕ
leaky alloc b_in hi_cut lo [] = []
leaky alloc b_in hi_cut lo (n ∷ order) =
    let hi = lo + alloc n in
    let rest = leaky alloc b_in hi_cut hi order in
    if ltb lo b_in || ltb hi_cut hi then n ∷ rest else rest

unfoldable pub last_of : ℕ → List ℕ → ℕ
last_of n [] = n
last_of n (m ∷ order) = last_of m order

-- `_boundary_nodes`, of an order that is not empty: both ends, and the stages of leaky layers.
unfoldable pub boundary_nodes : List ℕ → (ℕ → ℕ) → ℕ → ℕ → ℕ → List ℕ
unfolding leaky last_of
boundary_nodes [] alloc n_layers b_in b_out = []
boundary_nodes (n ∷ order) alloc n_layers b_in b_out =
    n ∷ last_of n order ∷ leaky alloc b_in (n_layers - b_out) 0 (n ∷ order)

-- `blocks` of the ring that `select_ring` returns: each stage with its layers, from `lo` on.
unfoldable pub blocks : (ℕ → ℕ) → ℕ → List ℕ → List (ℕ × ℕ × ℕ)
blocks alloc lo [] = []
blocks alloc lo (n ∷ order) = (n, lo, lo + alloc n) ∷ blocks alloc (lo + alloc n) order
