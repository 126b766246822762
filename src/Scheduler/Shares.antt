-- ===== src/Scheduler/Shares.antt =====
-- `_distribute` (shard/shard/scheduler.py) gives out every layer.
use native.Mathlib.Nat.{le-div_iff_mul-le, mul-le-mul_right, le_of_mul-le-mul_right}
use shard_glm_image.Base.{
  ℕ, zero, suc, ◌+◌, ◌-◌, ◌*◌, ◌≤◌, ◌<◌, ◌≡◌, ◌≢◌, ◌⊎◌, inl, inr, refl, subst, some, List, [], ◌∷◌,
  ◌++◌, arith, All, sum_of, length, length-append, ltb, Bool-cases,
}
use shard_glm_image.Base.Sort.{
  Distinct, sort_by, sum_of-sort_by, All-sort_by, All-of-sort_by, sort_by-Distinct,
}
use shard_glm_image.Base.Table.{
  update, update_self, update_ne, sum_of-update, sum_of-append, All-append, Distinct-rotate,
}
use shard_glm_image.Scheduler.{le_share, floor_share, hand_out, distribute}

-- One of the first `j` nodes has room.
abbrev Room : (ℕ → ℕ) → (ℕ → ℕ) → ℕ → List ℕ → Type 0
Room cap base zero order = ⊥
Room cap base (suc j) [] = ⊥
Room cap base (suc j) (i ∷ order) = (base i < cap i) ⊎ Room cap base j order

module _ (cap : ℕ → ℕ) where
  Room-append :
      (base : ℕ → ℕ) (j : ℕ) (order more : List ℕ)
      → Room cap base j order
      → Room cap base j (order ++ more)
  Room-append base zero order more h = h
  Room-append base (suc j) [] more h = absurd h
  Room-append base (suc j) (i ∷ order) more (inl h) = inl h
  Room-append base (suc j) (i ∷ order) more (inr h) = inr (Room-append base j order more h)

  Room-of_sum :
      (base : ℕ → ℕ) (order : List ℕ)
      → sum_of base order < sum_of cap order
      → Room cap base (length order) order
  Room-of_sum base [] h = omega arith
  Room-of_sum base (i ∷ order) h = elim (Bool-cases (ltb (base i) (cap i))) [
    | inl y ↦ inl (ground arith)
    | inr n ↦ inr (Room-of_sum base order (ground arith))
  ]

  -- What the loop keeps: each node within its capacity, and what it adds up to.
  pub record Shared (order : List ℕ) (total : ℕ) (base : ℕ → ℕ) : Type 0 where
    pub bounds : All (λ i. base i ≤ cap i) order
    pub sums : sum_of base order ≡ total

  full_round :
      (fuel i : ℕ) (order : List ℕ) (base : ℕ → ℕ) (rem : ℕ)
      → cap i ≤ base i
      → hand_out cap (suc fuel) (i ∷ order) base (suc rem)
        ≡ hand_out cap fuel (order ++ i ∷ []) base (suc rem)
  unfolding hand_out
  full_round fuel i order base rem h = ground arith

  free_round :
      (fuel i : ℕ) (order : List ℕ) (base : ℕ → ℕ) (rem : ℕ)
      → base i < cap i
      → hand_out cap (suc fuel) (i ∷ order) base (suc rem)
        ≡ hand_out cap fuel (order ++ i ∷ []) (update base i (base i + 1)) rem
  unfolding hand_out
  free_round fuel i order base rem h = ground arith

  no_round : (fuel : ℕ) (order : List ℕ) (base : ℕ → ℕ) → hand_out cap fuel order base 0 ≡ base
  unfolding hand_out
  no_round zero order base = refl
  no_round (suc fuel) [] base = refl
  no_round (suc fuel) (i ∷ order) base = ground arith

  Shared-rotate :
      (i : ℕ) (order : List ℕ) (total : ℕ) (base : ℕ → ℕ)
      → Shared (i ∷ order) total base
      → Shared (order ++ i ∷ []) total base
  Shared-rotate i order total base h = record {
    bounds = All-append _ order (i ∷ []) h.bounds.1 (h.bounds.0, tt);
    sums = omega (arith, sum_of-append base order (i ∷ []), h.sums);
  }

  Shared-rotate_back :
      (i : ℕ) (order : List ℕ) (total : ℕ) (base : ℕ → ℕ)
      → Shared (order ++ i ∷ []) total base
      → Shared (i ∷ order) total base
  Shared-rotate_back i order total base h = record {
    bounds = All-rotate_back order h.bounds;
    sums = omega (arith, sum_of-append base order (i ∷ []), h.sums);
  }
    where
      All-rotate_back :
          (order' : List ℕ)
          → All (λ k. base k ≤ cap k) (order' ++ i ∷ [])
          → All (λ k. base k ≤ cap k) (i ∷ order')
      All-rotate_back [] h = h
      All-rotate_back (k ∷ order') (p, ps) = let (q, qs) = All-rotate_back order' ps in (q, (p, qs))

  update-bounds :
      (i : ℕ) (order : List ℕ) (base : ℕ → ℕ) (v : ℕ)
      → All (λ k. k ≢ i) order
      → All (λ k. base k ≤ cap k) order
      → All (λ k. update base i v k ≤ cap k) order
  update-bounds i [] base v new h = tt
  update-bounds i (k ∷ order) base v (ne, new) (p, ps) =
      (rw (update_ne base i v k ne) p, update-bounds i order base v new ps)

  Shared-update :
      (i : ℕ) (order : List ℕ) (total : ℕ) (base : ℕ → ℕ)
      → Distinct (i ∷ order)
      → base i < cap i
      → Shared (i ∷ order) total base
      → Shared (i ∷ order) (total + 1) (update base i (base i + 1))
  Shared-update i order total base (new, rest) free h = record {
    bounds = (
      rw (update_self base i (base i + 1)) (omega arith),
      update-bounds i order base _ new h.bounds.1,
    );
    sums = omega (
      arith,
      update_self base i (base i + 1),
      sum_of-update base i (base i + 1) order new,
      h.sums,
    );
  }

  -- A node with room among the first `j`, and rounds enough from there on, unless nothing is left.
  abbrev Enough : (ℕ → ℕ) → List ℕ → ℕ → ℕ → ℕ → Type 0
  Enough base order fuel j zero = Unit
  Enough base order fuel j (suc rem) = Room cap base j order × (j + rem * length order ≤ fuel)

  Enough-start :
      (base : ℕ → ℕ) (order : List ℕ) (total fuel rem : ℕ)
      → sum_of base order ≡ total
      → total + rem ≤ sum_of cap order
      → rem * length order ≤ fuel
      → Enough base order fuel (length order) rem
  Enough-start base order total fuel zero s h e = tt
  Enough-start base order total fuel (suc rem) s h e =
      (Room-of_sum base order (omega (arith, s, h)), omega (arith, e))

  Room-skip :
      (base : ℕ → ℕ) (j i : ℕ) (order : List ℕ)
      → cap i ≤ base i
      → Room cap base (suc j) (i ∷ order)
      → Room cap base j order
  Room-skip base j i order full (inl h) = absurd (omega arith)
  Room-skip base j i order full (inr h) = h

  length_rotate : (i : ℕ) (order : List ℕ) → length (order ++ i ∷ []) ≡ suc (length order)
  length_rotate i order = omega (arith, length-append order (i ∷ []))

  sum_rotate : (i : ℕ) (order : List ℕ) → sum_of cap (order ++ i ∷ []) ≡ sum_of cap (i ∷ order)
  sum_rotate i order = omega (arith, sum_of-append cap order (i ∷ []))

  hand_out-Shared :
      (fuel j : ℕ) (order : List ℕ) (base : ℕ → ℕ) (total rem : ℕ)
      → Distinct order
      → Shared order total base
      → total + rem ≤ sum_of cap order
      → Enough base order fuel j rem
      → Shared order (total + rem) (hand_out cap fuel order base rem)
  hand_out-Shared fuel j order base total zero d h room e =
      rw (no_round fuel order base) (record { bounds = h.bounds; sums = omega (arith, h.sums) })
  hand_out-Shared zero zero order base total (suc rem) d h room e = absurd e.0
  hand_out-Shared zero (suc j) order base total (suc rem) d h room e = absurd (omega (arith, e.1))
  hand_out-Shared (suc fuel) zero [] base total (suc rem) d h room e = absurd e.0
  hand_out-Shared (suc fuel) (suc j) [] base total (suc rem) d h room e = absurd e.0
  hand_out-Shared (suc fuel) zero (i ∷ order) base total (suc rem) d h room e = absurd e.0
  hand_out-Shared (suc fuel) (suc j) (i ∷ order) base total (suc rem) d h room (free, enough) =
      elim (Bool-cases (ltb (base i) (cap i))) [
        | inl y ↦
            let turned = order ++ i ∷ [] in
            let base' = update base i (base i + 1) in
            let h' =
              Shared-rotate i order (total + 1) base'
                (Shared-update i order total base d (ground (arith, y)) h) in
            let start =
              Enough-start base' turned (total + 1) fuel rem h'.sums
                (omega (arith, sum_rotate i order, room))
                (rw (length_rotate i order) (omega (arith, enough))) in
            rw (free_round fuel i order base rem (ground (arith, y))) (
              subst (λ (t : ℕ). Shared (i ∷ order) t (hand_out cap fuel turned base' rem))
                (omega arith)
                (Shared-rotate_back i order _ _ (
                  hand_out-Shared fuel (length turned) turned base' (total + 1) rem
                    (Distinct-rotate i order d) h' (omega (arith, sum_rotate i order, room))
                    start)))
        | inr n ↦ rw (full_round fuel i order base rem (ground (arith, n))) (
            Shared-rotate_back i order (total + suc rem) _ (
              hand_out-Shared fuel j (order ++ i ∷ []) base total (suc rem)
                (Distinct-rotate i order d) (Shared-rotate i order total base h)
                (omega (arith, sum_rotate i order, room))
                (
                  Room-append base j order (i ∷ [])
                      (Room-skip base j i order (ground (arith, n)) free),
                  rw (length_rotate i order) (omega (arith, enough)),
                )))
      ]

-- The floor shares fit.
module _ (total : ℕ) (cap : ℕ → ℕ) where
  floor_sum :
      (c : ℕ) (ids : List ℕ)
      → 0 < c
      → sum_of (floor_share total c cap) ids * c ≤ total * sum_of cap ids
  unfolding floor_share
  floor_sum c [] pos = omega arith
  floor_sum c (i ∷ ids) pos =
      let share : floor_share total c cap i * c ≤ total * cap i =
        (le-div_iff_mul-le pos).0 (omega arith) in
      grind (arith, share, floor_sum c ids pos)

  floor_bounds : (c : ℕ) (ids : List ℕ) → All (λ i. floor_share total c cap i ≤ cap i) ids
  unfolding floor_share
  floor_bounds c [] = tt
  floor_bounds c (i ∷ ids) = (omega arith, floor_bounds c ids)

stop_late : (r t l : ℕ) → r ≤ t → r * l ≤ 4 * l * (t + 1) + 1
stop_late r t l h = omega (arith, mul-le-mul_right l h)

-- `_distribute` gives out exactly `total` layers and no node more than its capacity, if the
-- capacities add up to at least `total` and to at least one layer; the safety stop of its loop is never
-- reached before that.
pub distribute-Shared :
    (total : ℕ) (ids : List ℕ) (cap : ℕ → ℕ)
    → Distinct ids
    → total ≤ sum_of cap ids
    → 0 < sum_of cap ids
    → (base : ℕ → ℕ) × (distribute total ids cap ≡ some base) × Shared cap ids total base
unfolding distribute
distribute-Shared total ids cap d enough some_room =
    let c = sum_of cap ids in
    let share = floor_share total c cap in
    let le = le_share total c cap in
    let order = sort_by le ids in
    let rem = total - sum_of share ids in
    let under : sum_of share ids ≤ total =
      le_of_mul-le-mul_right (floor_sum total cap c ids some_room) some_room in
    let same = sum_of-sort_by le share ids in
    let all = sum_of-sort_by le cap ids in
    let shared =
      hand_out-Shared cap (4 * length order * (total + 1) + 1) (length order) order share
        (sum_of share order) rem (sort_by-Distinct le ids d)
        (record { bounds = All-sort_by le _ ids (floor_bounds total cap c ids); sums = refl })
        (omega (arith, same, all, under, enough))
        (Enough-start cap share order (sum_of share order) _ rem refl
          (omega (arith, same, all, under, enough))
          (stop_late rem total (length order) (omega arith))) in
    let base = hand_out cap (4 * length order * (total + 1) + 1) order share rem in
    (
      base,
      ground arith,
      record {
        bounds = All-of-sort_by le _ ids shared.bounds;
        sums = omega (arith, sum_of-sort_by le base ids, shared.sums, same, under);
      },
    )
