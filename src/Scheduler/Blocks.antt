-- ===== src/Scheduler/Blocks.antt =====
-- The blocks that the pool is given, and the pool after a node has dropped
-- (shard/shard/scheduler.py).
use shard_glm_image.Base.{
  ℕ, ◌+◌, ◌≤◌, ◌<◌, ◌≡◌, ◌≢◌, inl, inr, refl, sym, subst, none, some, List, [], ◌∷◌, arith, All,
  sum_of, leb, ◌==◌, Bool-cases, map, Bool, ℕ_discrete, if_pos, if_neg,
}
use shard_glm_image.Base.Sort.{Distinct, sort_by, sum_of-sort_by, All-sort_by, sort_by-Distinct}
use shard_glm_image.Scheduler.{
  Scheduler, Fit, blocks, raised, value_error, put_node, pop_node, deregister, ids_of, vram_of,
  capacities, distribute, lay, laid, allocate, on_drop,
}
use shard_glm_image.Scheduler.Shares.{Shared, distribute-Shared}

-- Blocks that cover the layers from `a` to `b`, in order, none of them empty.
abbrev pub Tiling : ℕ → List (ℕ × ℕ × ℕ) → ℕ → Type 0
Tiling a [] b = a ≡ b
Tiling a ((id, lo, hi) ∷ bs) b = (lo ≡ a) × (lo < hi) × Tiling hi bs b

abbrev pub owners : List (ℕ × ℕ × ℕ) → List ℕ
owners = map (λ b. b.0)

module _ (counts : ℕ → ℕ) where
  lay-Tiling :
      (order : List ℕ) (cur end : ℕ)
      → cur + sum_of counts order ≡ end
      → Tiling cur (lay counts order cur) end
  unfolding lay
  lay-Tiling [] cur end h = omega (arith, h)
  lay-Tiling (id ∷ order) cur end h = elim (Bool-cases (counts id == 0)) [
    | inl y ↦ rw y (
        subst (λ (c : ℕ). Tiling cur (lay counts order c) end) (ground arith)
          (lay-Tiling order cur end (ground (arith, y))))
    | inr n ↦
        rw n (refl, ground (arith, n), lay-Tiling order (cur + counts id) end (omega (arith, h)))
  ]

  lay-All :
      (P : ℕ → Type 0) (order : List ℕ) (cur : ℕ)
      → All P order
      → All P (owners (lay counts order cur))
  unfolding lay
  lay-All P [] cur h = tt
  lay-All P (id ∷ order) cur (p, ps) = elim (Bool-cases (counts id == 0)) [
    | inl y ↦ rw y (lay-All P order _ ps)
    | inr n ↦ rw n (p, lay-All P order _ ps)
  ]

  lay-Distinct :
      (order : List ℕ) (cur : ℕ) → Distinct order → Distinct (owners (lay counts order cur))
  unfolding lay
  lay-Distinct [] cur h = tt
  lay-Distinct (id ∷ order) cur (new, rest) = elim (Bool-cases (counts id == 0)) [
    | inl y ↦ rw y (lay-Distinct order _ rest)
    | inr n ↦ rw n (lay-All (λ k. k ≢ id) order _ new, lay-Distinct order _ rest)
  ]

  lay-fits :
      (cap : ℕ → ℕ) (order : List ℕ) (cur : ℕ)
      → All (λ k. counts k ≤ cap k) order
      → All (λ b. b.2 ≤ b.1 + cap b.0) (lay counts order cur)
  unfolding lay
  lay-fits cap [] cur h = tt
  lay-fits cap (id ∷ order) cur (p, ps) = elim (Bool-cases (counts id == 0)) [
    | inl y ↦ rw y (lay-fits cap order _ ps)
    | inr n ↦ rw n (omega (arith, p), lay-fits cap order _ ps)
  ]

-- What can be deployed: the blocks cover the model in order, each is no larger than the memory of its
-- node holds, no node has two, and each owner is a node of the pool.
pub record IsDeployable (s : Scheduler) (fit : Fit) (bs : List (ℕ × ℕ × ℕ)) : Type 1 where
  pub tiles : Tiling 0 bs s.total_layers
  pub fits : All (λ b. b.2 ≤ b.1 + capacities s fit b.0) bs
  pub once : Distinct (owners bs)
  pub known : (P : ℕ → Type 0) → All P (ids_of s.nodes) → All P (owners bs)

module _ (s : Scheduler) (fit : Fit) (distinct : Distinct (ids_of s.nodes)) where
  abbrev fat_first : ℕ → ℕ → Bool
  fat_first a b = leb (vram_of s.nodes b) (vram_of s.nodes a)

  abbrev order : List ℕ
  order = sort_by fat_first (ids_of s.nodes)

  abbrev cap : ℕ → ℕ
  cap = capacities s fit

  lay-IsDeployable :
      (counts : ℕ → ℕ)
      → Shared cap order s.total_layers counts
      → IsDeployable s fit (lay counts order 0)
  lay-IsDeployable counts h = record {
    tiles = lay-Tiling counts order 0 s.total_layers (omega (arith, h.sums));
    fits = lay-fits counts cap order 0 h.bounds;
    once = lay-Distinct counts order 0 (sort_by-Distinct fat_first (ids_of s.nodes) distinct);
    known = λ P all. lay-All counts P order 0 (All-sort_by fat_first P (ids_of s.nodes) all);
  }

  shares :
      s.total_layers ≤ sum_of cap (ids_of s.nodes)
      → 0 < sum_of cap (ids_of s.nodes)
      → (counts : ℕ → ℕ) × (distribute s.total_layers order cap ≡ some counts)
        × Shared cap order s.total_layers counts
  shares enough some_room =
      let same = sum_of-sort_by fat_first cap (ids_of s.nodes) in
      distribute-Shared s.total_layers order cap
        (sort_by-Distinct fat_first (ids_of s.nodes) distinct) (omega (arith, same, enough))
        (omega (arith, same, some_room))

  -- `allocate` finds a deployable division of every model of at least one layer that the pool has the
  -- memory for.
  pub allocate_complete :
      0 < fit.per
      → 0 < s.total_layers
      → s.total_layers ≤ sum_of cap (ids_of s.nodes)
      → (bs : List (ℕ × ℕ × ℕ)) × (allocate s fit ≡ blocks bs) × IsDeployable s fit bs
  unfolding allocate laid
  allocate_complete sized layers enough =
      let (counts, found, shared) = shares enough (omega (arith, layers, enough)) in
      (lay counts order 0, ground (arith, found), lay-IsDeployable counts shared)

  -- `allocate` refuses a model that the pool has not the memory for.
  pub allocate_short :
      0 < fit.per
      → sum_of cap (ids_of s.nodes) < s.total_layers
      → allocate s fit ≡ raised value_error
  unfolding allocate
  allocate_short sized short = ground arith

  no_room : sum_of cap (ids_of s.nodes) ≡ 0 → distribute s.total_layers order cap ≡ none
  unfolding distribute
  no_room none_left = ground (arith, sum_of-sort_by fat_first cap (ids_of s.nodes))

  -- What `allocate` returns can be deployed, if no id stands twice in the pool.
  pub allocate-IsDeployable :
      (bs : List (ℕ × ℕ × ℕ)) → allocate s fit ≡ blocks bs → IsDeployable s fit bs
  unfolding allocate laid
  allocate-IsDeployable bs h = elim (Bool-cases (sum_of cap (ids_of s.nodes) == 0)) [
    | inl y ↦ absurd (ground (arith, no_room (ground (arith, y))))
    | inr n ↦
        let (counts, found, shared) = shares (ground arith) (ground (arith, n)) in
        subst (IsDeployable s fit) (ground (arith, found)) (lay-IsDeployable counts shared)
  ]

All-pop_node :
    (P : ℕ → Type 0) (nodes : List (ℕ × ℕ)) (id : ℕ)
    → All P (ids_of nodes)
    → All P (ids_of (pop_node nodes id))
unfolding pop_node
All-pop_node P [] id h = tt
All-pop_node P ((k, v) ∷ nodes) id (p, ps) = elim (ℕ_discrete k id) [
  | yes e ↦ rw (if_pos (ℕ_discrete k id) e nodes ((k, v) ∷ pop_node nodes id)) ps
  | no n ↦
      rw (if_neg (ℕ_discrete k id) n nodes ((k, v) ∷ pop_node nodes id))
        (p, All-pop_node P nodes id ps)
]

pop_node-Distinct :
    (nodes : List (ℕ × ℕ)) (id : ℕ)
    → Distinct (ids_of nodes)
    → Distinct (ids_of (pop_node nodes id)) × All (λ k. k ≢ id) (ids_of (pop_node nodes id))
unfolding pop_node
pop_node-Distinct [] id h = (tt, tt)
pop_node-Distinct ((k, v) ∷ nodes) id (new, rest) = elim (ℕ_discrete k id) [
  | yes e ↦
      rw (if_pos (ℕ_discrete k id) e nodes ((k, v) ∷ pop_node nodes id))
        (rest, subst (λ (i : ℕ). All (λ k'. k' ≢ i) (ids_of nodes)) e new)
  | no n ↦
      let (others, gone) = pop_node-Distinct nodes id rest in
      rw (if_neg (ℕ_discrete k id) n nodes ((k, v) ∷ pop_node nodes id))
        ((All-pop_node (λ k'. k' ≢ k) nodes id new, others), (n, gone))
]

-- When a node drops and the survivors are divided again, the division is deployable on the survivors,
-- and the node that dropped has no block in it.
pub on_drop-IsDeployable :
    (s : Scheduler) (fit : Fit) (id : ℕ) (bs : List (ℕ × ℕ × ℕ))
    → Distinct (ids_of s.nodes)
    → on_drop s id fit ≡ blocks bs
    → IsDeployable (deregister s id) fit bs × All (λ k. k ≢ id) (owners bs)
unfolding on_drop deregister
on_drop-IsDeployable s fit id bs distinct h =
    let (left, gone) = pop_node-Distinct s.nodes id distinct in
    let deployable = allocate-IsDeployable (deregister s id) fit left bs h in
    (deployable, deployable.known (λ k. k ≢ id) gone)

All-put_node :
    (P : ℕ → Type 0) (nodes : List (ℕ × ℕ)) (id vram : ℕ)
    → P id
    → All P (ids_of nodes)
    → All P (ids_of (put_node nodes id vram))
unfolding put_node
All-put_node P [] id vram q h = (q, tt)
All-put_node P ((k, v) ∷ nodes) id vram q (p, ps) = elim (ℕ_discrete k id) [
  | yes e ↦
      rw (if_pos (ℕ_discrete k id) e ((k, vram) ∷ nodes) ((k, v) ∷ put_node nodes id vram)) (p, ps)
  | no n ↦
      rw (if_neg (ℕ_discrete k id) n ((k, vram) ∷ nodes) ((k, v) ∷ put_node nodes id vram))
        (p, All-put_node P nodes id vram q ps)
]

-- A node registers once: registering keeps the ids of the pool apart.
pub register-Distinct :
    (nodes : List (ℕ × ℕ)) (id vram : ℕ)
    → Distinct (ids_of nodes)
    → Distinct (ids_of (put_node nodes id vram))
unfolding put_node
register-Distinct [] id vram h = (tt, tt)
register-Distinct ((k, v) ∷ nodes) id vram (new, rest) = elim (ℕ_discrete k id) [
  | yes e ↦
      rw (if_pos (ℕ_discrete k id) e ((k, vram) ∷ nodes) ((k, v) ∷ put_node nodes id vram))
        (new, rest)
  | no n ↦ rw (if_neg (ℕ_discrete k id) n ((k, vram) ∷ nodes) ((k, v) ∷ put_node nodes id vram)) (
    All-put_node (λ k'. k' ≢ k) nodes id vram (λ q. n (sym q)) new,
    register-Distinct nodes id vram rest,
  )
]
