-- ===== src/Topology/Assign/Correct.antt =====
-- `assign_layers` (shard/shard/topology.py) finds the cheapest valid division of the layers.
use shard_glm_image.Base.{
  ℕ, ◌+◌, ◌-◌, ◌*◌, ◌≤◌, ◌<◌, ◌≡◌, refl, sym, subst, Option, some, List, [], ◌∷◌, arith, All,
  All-zip_with, sum_of, sum_of_mono, false, ltb,
}
use shard_glm_image.Base.Sort.{
  Distinct, sort_by, le_key, sum_of-sort_by, All-sort_by, All-of-sort_by, sort_by-Ascending,
  sort_by-Distinct,
}
use shard_glm_image.Topology.Assign.{base_of, any, fill, finish, assign_layers}
use shard_glm_image.Topology.Assign.Fill.{fill-sum, fill-bounds, fill-done, fill-optimal, cost_of}

-- A division of the layers: at least the floor and at most the capacity at each node, and together
-- the whole model.
pub record IsValid (order : List ℕ) (n_layers : ℕ) (caps : ℕ → ℕ) (floors : ℕ → Option ℕ)
    (alloc : ℕ → ℕ) : Type 0 where
  pub bounds : All (λ n. (base_of floors n ≤ alloc n) × (alloc n ≤ caps n)) order
  pub total : sum_of alloc order ≡ n_layers

any-eq-false :
    (caps base : ℕ → ℕ) (order : List ℕ)
    → any (λ n. ltb (caps n) (base n)) order ≡ false
    → All (λ n. base n ≤ caps n) order
unfolding any
any-eq-false caps base [] h = tt
any-eq-false caps base (n ∷ ns) h = (ground arith, any-eq-false caps base ns (ground arith))

any_of_All :
    (caps base : ℕ → ℕ) (order : List ℕ)
    → All (λ n. base n ≤ caps n) order
    → any (λ n. ltb (caps n) (base n)) order ≡ false
unfolding any
any_of_All caps base [] h = refl
any_of_All caps base (n ∷ ns) h = ground (arith, any_of_All caps base ns h.1)

module _ (order : List ℕ) (n_layers : ℕ) (caps layer_ms : ℕ → ℕ) (floors : ℕ → Option ℕ) where
  abbrev base : ℕ → ℕ
  base = base_of floors

  abbrev sorted : List ℕ
  sorted = sort_by (le_key layer_ms) order

  abbrev filled : (ℕ → ℕ) × ℕ
  filled = fill caps sorted base (n_layers - sum_of base order)

  -- The guards that an assignment passes, and where it comes from.
  record Passed (alloc : ℕ → ℕ) : Type 0 where
    some_layers : 0 < n_layers
    enough : sum_of base order ≤ n_layers
    fits : any (λ n. ltb (caps n) (base n)) order ≡ false
    room : n_layers ≤ sum_of caps order
    source : alloc ≡ filled.0
    done : filled.1 ≡ 0

  assign_layers-Passed :
      (alloc : ℕ → ℕ)
      → assign_layers order n_layers caps layer_ms floors ≡ some alloc
      → Passed alloc
  unfolding assign_layers finish
  assign_layers-Passed alloc h = ground arith

  base_room :
      (y : ℕ → ℕ)
      → IsValid order n_layers caps floors y
      → (sum_of base order ≤ n_layers) × (n_layers ≤ sum_of caps order)
  base_room y v = (
    omega (
      arith,
      sum_of_mono base y order (All-zip_with order (λ n a b. a.0) v.bounds v.bounds),
      v.total,
    ),
    omega (
      arith,
      sum_of_mono y caps order (All-zip_with order (λ n a b. a.1) v.bounds v.bounds),
      v.total,
    ),
  )

  module _ (distinct : Distinct order) where
    sorted-Distinct : Distinct sorted
    sorted-Distinct = sort_by-Distinct (le_key layer_ms) order distinct

    sorted-fits : All (λ n. base n ≤ caps n) order → All (λ n. base n ≤ caps n) sorted
    sorted-fits = All-sort_by (le_key layer_ms) (λ n. base n ≤ caps n) order

    filled_total : sum_of base order ≤ n_layers → sum_of filled.0 order + filled.1 ≡ n_layers
    filled_total h = omega (
      arith,
      fill-sum caps sorted base (n_layers - sum_of base order) sorted-Distinct,
      sum_of-sort_by (le_key layer_ms) filled.0 order,
      sum_of-sort_by (le_key layer_ms) base order,
    )

    -- What `assign_layers` returns is a valid division, if no node stands twice in the order.
    pub assign_layers-IsValid :
        (alloc : ℕ → ℕ)
        → assign_layers order n_layers caps layer_ms floors ≡ some alloc
        → IsValid order n_layers caps floors alloc
    assign_layers-IsValid alloc h =
        let p = assign_layers-Passed alloc h in
        let ok_base = any-eq-false caps base order p.fits in
        subst (IsValid order n_layers caps floors) (sym p.source) (record {
          bounds =
              All-of-sort_by (le_key layer_ms) _ order
                (fill-bounds caps sorted base _ sorted-Distinct (sorted-fits ok_base));
          total = omega (arith, filled_total p.enough, p.done);
        })

    -- `assign_layers` finds a division whenever there is a valid one of at least one layer.
    pub assign_layers_complete :
        (y : ℕ → ℕ)
        → 0 < n_layers
        → IsValid order n_layers caps floors y
        → (alloc : ℕ → ℕ) × (assign_layers order n_layers caps layer_ms floors ≡ some alloc)
    unfolding assign_layers finish
    assign_layers_complete y pos v =
        let ok_base : All (λ n. base n ≤ caps n) order =
          All-zip_with order (λ n a b. omega arith) v.bounds v.bounds in
        let fits = any_of_All caps base order ok_base in
        let (enough, room) = base_room y v in
        let finished =
          fill-done caps sorted base (n_layers - sum_of base order) sorted-Distinct
            (sorted-fits ok_base)
            (omega (
              arith,
              sum_of-sort_by (le_key layer_ms) base order,
              sum_of-sort_by (le_key layer_ms) caps order,
            )) in
        (filled.0, ground arith)

    -- No valid division costs less decode time per step than the one that `assign_layers` returns.
    pub assign_layers-optimal :
        (alloc y : ℕ → ℕ)
        → assign_layers order n_layers caps layer_ms floors ≡ some alloc
        → IsValid order n_layers caps floors y
        → cost_of layer_ms alloc order ≤ cost_of layer_ms y order
    assign_layers-optimal alloc y h v =
        let p = assign_layers-Passed alloc h in
        let rem = n_layers - sum_of base order in
        let best =
          fill-optimal caps layer_ms sorted base rem 0 0 y sorted-Distinct
            (sort_by-Ascending layer_ms order)
            (All-sort_by (le_key layer_ms) (λ n. 0 ≤ layer_ms n) order (zeros order))
            (All-sort_by (le_key layer_ms) _ order v.bounds)
            (omega (
              arith,
              sum_of-sort_by (le_key layer_ms) base order,
              sum_of-sort_by (le_key layer_ms) y order,
              p.enough,
              v.total,
            )) in
        subst (λ (a : ℕ → ℕ). cost_of layer_ms a order ≤ cost_of layer_ms y order) (sym p.source)
          (omega (
            arith,
            best,
            sum_of-sort_by (le_key layer_ms) (λ n. filled.0 n * layer_ms n) order,
            sum_of-sort_by (le_key layer_ms) (λ n. y n * layer_ms n) order,
          ))
      where
        zeros : (ns : List ℕ) → All (λ n. 0 ≤ layer_ms n) ns
        zeros [] = tt
        zeros (n ∷ ns) = (omega arith, zeros ns)
