-- ===== src/Topology/Assign.antt =====
-- shard/shard/topology.py `assign_layers`: how many layers each stage of a ring holds. A node is a
-- number; a dictionary keyed by the nodes of an order is a function, read at those nodes only.
pub mod Fill
pub mod Correct
use shard_glm_image.Base.{
  ℕ, ◌+◌, ◌-◌, ◌≡◌, ite, if◌then◌else◌, Option, none, some, List, [], ◌∷◌, Bool, true, false, ◌||◌,
  ltb, leb, ◌==◌, ℕ_discrete, min, max, sum_of,
}
use shard_glm_image.Base.Table.{update}
use shard_glm_image.Base.Sort.{sort_by, le_key}

-- `max(1, (floors or {}).get(n, 1))`
unfoldable pub base_of : (ℕ → Option ℕ) → ℕ → ℕ
base_of floors n = elim (floors n) [ none ↦ 1 | some f ↦ max 1 f ]

-- `any(p(n) for n in order)`
unfoldable pub any : (ℕ → Bool) → List ℕ → Bool
any p [] = false
any p (n ∷ ns) = p n || any p ns

-- The loop that gives out `rem` layers, and what is left of them. `caps[n] - alloc[n]` is read only
-- as `take > 0`, so a subtraction that stops at 0 serves.
unfoldable pub fill : (ℕ → ℕ) → List ℕ → (ℕ → ℕ) → ℕ → (ℕ → ℕ) × ℕ
unfolding update
fill caps [] alloc rem = (alloc, rem)
fill caps (n ∷ ns) alloc rem =
    let take = min (caps n - alloc n) rem in
    let alloc' = if ltb 0 take then update alloc n (alloc n + take) else alloc in
    let rem' = rem - take in
    let rest = fill caps ns alloc' rem' in if rem' == 0 then (alloc', 0) else rest

unfoldable pub finish : (ℕ → ℕ) × ℕ → Option (ℕ → ℕ)
finish (alloc, rem) = if rem == 0 then some alloc else none

unfoldable pub assign_layers : List ℕ → ℕ → (ℕ → ℕ) → (ℕ → ℕ) → (ℕ → Option ℕ) → Option (ℕ → ℕ)
unfolding base_of any finish
assign_layers order n_layers caps layer_ms floors =
    let base = base_of floors in
    let need = sum_of base order in
    if n_layers == 0 || ltb n_layers need
    then none
    else if any (λ n. ltb (caps n) (base n)) order
    then none
    else if ltb (sum_of caps order) n_layers
    then none
    else finish (fill caps (sort_by (le_key layer_ms) order) base (n_layers - need))
