-- ===== src/Scheduler.antt =====
-- shard/shard/scheduler.py: the pool of nodes, and its division into contiguous blocks. A node's id is
-- a number, and memory is counted in a fixed small unit (`vram_gb` and the sizes per layer in it).
pub mod Shares
pub mod Blocks
use shard_glm_image.Base.{
  ℕ, zero, suc, ◌+◌, ◌-◌, ◌*◌, ◌/◌, ◌%◌, if◌then◌else◌, Option, none, some, List, [], ◌∷◌, ◌++◌,
  Bool, true, false, ◌&&◌, ◌||◌, ltb, leb, ◌==◌, ite, ℕ_discrete, min, sum_of, length, map,
}
use shard_glm_image.Base.Table.{update}
use shard_glm_image.Base.Sort.{sort_by}

pub record Scheduler : Type 0 where
  pub total_layers : ℕ
  pub nodes : List (ℕ × ℕ)

-- The sizes that a fit is made for: `gb_per_layer + kv_gb_per_layer`, and `headroom_gb + boundary_gb`.
pub record Fit : Type 0 where
  pub per : ℕ
  pub slack : ℕ

pub data Fault : Type 0 where
  zero_division value_error : Fault

pub data Outcome : Type 0 where
  blocks : List (ℕ × ℕ × ℕ) → Outcome
  raised : Fault → Outcome

-- `self.nodes[node.node_id] = node`
unfoldable pub put_node : List (ℕ × ℕ) → ℕ → ℕ → List (ℕ × ℕ)
put_node [] id vram = (id, vram) ∷ []
put_node ((k, v) ∷ nodes) id vram =
    ite (ℕ_discrete k id) ((k, vram) ∷ nodes) ((k, v) ∷ put_node nodes id vram)

unfoldable pub register : Scheduler → ℕ → ℕ → Scheduler
unfolding put_node
register s id vram = record s { nodes = put_node s.nodes id vram }

-- `self.nodes.pop(node_id, None)`
unfoldable pub pop_node : List (ℕ × ℕ) → ℕ → List (ℕ × ℕ)
pop_node [] id = []
pop_node ((k, v) ∷ nodes) id = ite (ℕ_discrete k id) nodes ((k, v) ∷ pop_node nodes id)

unfoldable pub deregister : Scheduler → ℕ → Scheduler
unfolding pop_node
deregister s id = record s { nodes = pop_node s.nodes id }

abbrev pub ids_of : List (ℕ × ℕ) → List ℕ
ids_of = map (λ n. n.0)

unfoldable pub vram_of : List (ℕ × ℕ) → ℕ → ℕ
vram_of [] id = 0
vram_of ((k, v) ∷ nodes) id = ite (ℕ_discrete k id) v (vram_of nodes id)

-- `max(0, int((vram - headroom - boundary) / per))`
unfoldable pub capacity : Fit → ℕ → ℕ
capacity fit vram = (vram - fit.slack) / fit.per

unfoldable pub capacities : Scheduler → Fit → ℕ → ℕ
unfolding vram_of capacity
capacities s fit id = capacity fit (vram_of s.nodes id)

-- The order of `_distribute`: the largest remainder first, then the largest capacity.
unfoldable pub le_share : ℕ → ℕ → (ℕ → ℕ) → ℕ → ℕ → Bool
le_share total capsum cap a b =
    let ra = total * cap a % capsum in
    let rb = total * cap b % capsum in ltb rb ra || (ra == rb && leb (cap b) (cap a))

-- The floor shares.
unfoldable pub floor_share : ℕ → ℕ → (ℕ → ℕ) → ℕ → ℕ
floor_share total capsum cap id = min (cap id) (total * cap id / capsum)

-- The loop over `order[k % len(order)]`, with the order turned by `k` and the number of rounds that
-- the safety stop leaves as fuel.
unfoldable pub hand_out : (ℕ → ℕ) → ℕ → List ℕ → (ℕ → ℕ) → ℕ → ℕ → ℕ
unfolding update
hand_out cap zero order base rem = base
hand_out cap (suc fuel) [] base rem = base
hand_out cap (suc fuel) (i ∷ order) base rem =
    let room = ltb (base i) (cap i) in
    let base' = if room then update base i (base i + 1) else base in
    let rest = hand_out cap fuel (order ++ i ∷ []) base' (if room then rem - 1 else rem) in
    if rem == 0 then base else rest

-- `_distribute`; `none` is a ZeroDivisionError.
unfoldable pub distribute : ℕ → List ℕ → (ℕ → ℕ) → Option (ℕ → ℕ)
unfolding floor_share hand_out le_share
distribute total ids cap =
    let capsum = sum_of cap ids in
    let base = floor_share total capsum cap in
    let rem = total - sum_of base ids in
    let order = sort_by (le_share total capsum cap) ids in
    if capsum == 0
    then none
    else some (hand_out cap (4 * length order * (total + 1) + 1) order base rem)

-- The blocks, from layer `cur` on.
unfoldable pub lay : (ℕ → ℕ) → List ℕ → ℕ → List (ℕ × ℕ × ℕ)
lay counts [] cur = []
lay counts (id ∷ order) cur =
    let rest = lay counts order (cur + counts id) in
    if counts id == 0 then rest else (id, cur, cur + counts id) ∷ rest

unfoldable pub laid : List ℕ → Option (ℕ → ℕ) → Outcome
unfolding lay
laid order none = raised zero_division
laid order (some counts) = blocks (lay counts order 0)

-- `allocate`, of a pool with at least one node.
unfoldable pub allocate : Scheduler → Fit → Outcome
unfolding capacities distribute laid vram_of
allocate s fit =
    let cap = capacities s fit in
    let order = sort_by (λ a b. leb (vram_of s.nodes b) (vram_of s.nodes a)) (ids_of s.nodes) in
    if fit.per == 0
    then raised zero_division
    else if ltb (sum_of cap (ids_of s.nodes)) s.total_layers
    then raised value_error
    else laid order (distribute s.total_layers order cap)

unfoldable pub on_drop : Scheduler → ℕ → Fit → Outcome
unfolding deregister allocate
on_drop s id fit = allocate (deregister s id) fit
