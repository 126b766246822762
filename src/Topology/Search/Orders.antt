-- ===== src/Topology/Search/Orders.antt =====
-- Each order that shard/shard/topology.py `_pin_orders` yields goes over the subset, from a head that it may have.
use mathlib.Core.List.{Perm, Mem, not-mem-nil, mem_of_ne_of_mem}
use mathlib.Core.List.Perm
use shard_glm_image.Base.{
  ℕ, ◌-◌, ◌≡◌, ◌==◌, refl, sym, subst, false, Bool-cases, Option, none, some, inl, inr, List, [],
  ◌∷◌, All, arith, length, ltb,
}
use shard_glm_image.Base.Sort.{Distinct, All-sort_by}
use shard_glm_image.Topology.Head.{without, permutations}
use shard_glm_image.Topology.Head.Cheapest.{without-perm}
use shard_glm_image.Topology.Head.Arranged.{permutations-perm}
use shard_glm_image.Topology.Pins.{ends_in}
use shard_glm_image.Topology.Tour.{pin_order_oversize, over_tails, cheaper, ends_tour}
use shard_glm_image.Topology.Tour.Visits.{HeadedBy, ends_tour-perm}
use shard_glm_image.Topology.Search.{
  among, chosen, Pool, misses, cost_of, by_cost, heads_of, singles, with_tail, exhaustive,
  or_nothing, pin_orders,
}
use shard_glm_image.Topology.Search.Picked.{among-Mem, All-chosen, All-Mem, All_joined, All_widen}

-- The head that is asked for, if one is.
abbrev pub Required : Option ℕ → ℕ → Type 0
Required none n = Unit
Required (some r) n = n ≡ r

abbrev pub Headed : Option ℕ → List ℕ → Type 0
Headed require [] = ⊥
Headed require (n ∷ order) = Required require n

alone : (h : ℕ) (ns : List ℕ) → length ns ≡ 1 → Mem h ns → Perm (h ∷ []) ns
alone h [] one m = absurd (omega (arith, one))
alone h (x ∷ y ∷ ns) one m = absurd (omega (arith, one))
alone h (x ∷ []) one m = elim (Bool-cases (x == h)) [
  | inl y ↦
      let e : x ≡ h = ground (arith, y) in
      subst (λ (z : ℕ). Perm (h ∷ []) (z ∷ [])) (sym e) (Perm.refl (h ∷ []))
  | inr differs ↦
      absurd (not-mem-nil (mem_of_ne_of_mem (λ (e : h ≡ x). ground (arith, differs, e)) m))
]

module _ (p : Pool) (subset : List ℕ) where
  abbrev pub IsHead : ℕ → Type 0
  IsHead h = Mem h subset × Required p.require h

  -- An order of the subset.
  abbrev pub IsOrder : List ℕ → Type 0
  IsOrder order = Perm order subset × Headed p.require order

module _ (p : Pool) (subset : List ℕ) (d : Distinct subset) where
  heads_of-IsHead : misses p.require subset ≡ false → All (IsHead p subset) (heads_of p subset)
  unfolding heads_of
  heads_of-IsHead h = go p.require h
    where
      go :
          (require : Option ℕ)
          → misses require subset ≡ false
          → All
              (λ n. Mem n subset × Required require n)
              (elim require as (λ x. List ℕ) [ none ↦ chosen p.trust subset | some r ↦ r ∷ [] ])
      go none h =
          All-chosen (λ n. Mem n subset × Unit {0}) p.trust subset
            (All_widen (λ n. Mem n subset) (λ n. Mem n subset × Unit {0}) subset (λ n m. (m, tt))
              (All-Mem subset))
      go (some r) h = ((among-Mem r subset (ground (arith, h)), refl), tt)

  singles-IsOrder :
      (ends heads : List ℕ)
      → length subset ≡ 1
      → All (IsHead p subset) heads
      → All (IsOrder p subset) (singles p ends heads)
  unfolding singles
  singles-IsOrder ends [] one a = tt
  singles-IsOrder ends (h ∷ heads) one (head, a) = elim (Bool-cases (among h ends)) [
    | inl y ↦ rw y ((alone h subset one head.0, head.1), singles-IsOrder ends heads one a)
    | inr out ↦ rw out (singles-IsOrder ends heads one a)
  ]

  with_tail-IsOrder :
      (h : ℕ) (perms : List (List ℕ))
      → (IsHead p subset) h
      → All (λ q. Perm q (without h subset)) perms
      → All (IsOrder p subset) (with_tail p h perms)
  unfolding with_tail
  with_tail-IsOrder h [] head a = tt
  with_tail-IsOrder h (q ∷ perms) head (arranged, a) = elim (Bool-cases (ends_in p.trust q)) [
    | inl y ↦ rw y (
      (Perm.trans (Perm.cons h arranged) (without-perm h subset d head.0), head.1),
      with_tail-IsOrder h perms head a,
    )
    | inr out ↦ rw out (with_tail-IsOrder h perms head a)
  ]

  exhaustive-IsOrder :
      (heads : List ℕ)
      → All (IsHead p subset) heads
      → All (IsOrder p subset) (exhaustive p subset heads)
  unfolding exhaustive
  exhaustive-IsOrder [] a = tt
  exhaustive-IsOrder (h ∷ heads) (head, a) =
      let mids = without h subset in
      let perms = permutations (length mids) mids in
      All_joined (IsOrder p subset) (with_tail p h perms) (exhaustive p subset heads)
        (with_tail-IsOrder h perms head (permutations-perm (length mids) mids refl))
        (exhaustive-IsOrder heads a)

  -- The best tour that was found, if any.
  abbrev MaybeOrder : Option (List ℕ) → Type 0
  MaybeOrder none = Unit
  MaybeOrder (some order) = (IsOrder p subset) order

  cheaper-MaybeOrder :
      (best : Option (List ℕ)) (tour : List ℕ)
      → MaybeOrder best
      → (IsOrder p subset) tour
      → MaybeOrder (cheaper p.L p.c_out p.c_in best tour)
  unfolding cheaper
  cheaper-MaybeOrder none tour a t = t
  cheaper-MaybeOrder (some best) tour a t =
      elim (Bool-cases (ltb (cost_of p tour) (cost_of p best))) [ inl y ↦ rw y t | inr n ↦ rw n a ]

  headed :
      (h : ℕ) (order : List ℕ) → HeadedBy h order → Required p.require h → Headed p.require order
  headed h [] starts required = starts
  headed h (n ∷ order) starts required = subst (Required p.require) (sym starts) required

  over_tails-MaybeOrder :
      (h : ℕ) (ends : List ℕ) (best : Option (List ℕ))
      → (IsHead p subset) h
      → All (λ t. Mem t subset) ends
      → MaybeOrder best
      → MaybeOrder (over_tails p.L p.c_out p.c_in subset h ends best)
  unfolding over_tails
  over_tails-MaybeOrder h [] best head a b = b
  over_tails-MaybeOrder h (t ∷ ends) best head (there, a) b = elim (Bool-cases (t == h)) [
    | inl y ↦ rw y (over_tails-MaybeOrder h ends best head a b)
    | inr differs ↦
        let (arranged, starts) =
          ends_tour-perm p.L p.c_out p.c_in subset h t d head.0 there
            (λ e. ground (arith, differs, e)) in
        rw differs (
          over_tails-MaybeOrder h ends
            (cheaper p.L p.c_out p.c_in best (ends_tour p.L p.c_out p.c_in subset h t)) head a
            (cheaper-MaybeOrder best (ends_tour p.L p.c_out p.c_in subset h t) b
              (arranged, headed h (ends_tour p.L p.c_out p.c_in subset h t) starts head.1)))
  ]

  oversize-MaybeOrder :
      (heads ends : List ℕ) (best : Option (List ℕ))
      → All (IsHead p subset) heads
      → All (λ t. Mem t subset) ends
      → MaybeOrder best
      → MaybeOrder (pin_order_oversize p.L p.c_out p.c_in subset heads ends best)
  unfolding pin_order_oversize
  oversize-MaybeOrder [] ends best a e b = b
  oversize-MaybeOrder (h ∷ heads) ends best (head, a) e b =
      oversize-MaybeOrder heads ends (over_tails p.L p.c_out p.c_in subset h ends best) a e
        (over_tails-MaybeOrder h ends best head e b)

  or_nothing-IsOrder :
      (o : Option (List ℕ)) → MaybeOrder o → All (IsOrder p subset) (or_nothing p o)
  or_nothing-IsOrder none a = tt
  or_nothing-IsOrder (some order) a = (a, tt)

  pub pin_orders-IsOrder :
      misses p.require subset ≡ false → All (IsOrder p subset) (pin_orders p subset (length subset))
  unfolding pin_orders
  pin_orders-IsOrder h = elim (Bool-cases (length subset == 1)) [
    | inl one ↦ rw one (singles-IsOrder ends heads (ground (arith, one)) are_heads)
    | inr more ↦ elim (Bool-cases (ltb 7 (length subset - 1))) [
      | inl y ↦
          rw (more, y)
            (or_nothing-IsOrder oversize
              (oversize-MaybeOrder heads ends none are_heads are_ends tt))
      | inr n ↦
          rw (more, n)
            (All-sort_by (by_cost p) (IsOrder p subset) (exhaustive p subset heads)
              (exhaustive-IsOrder heads are_heads))
    ]
  ]
    where
      heads : List ℕ
      heads = heads_of p subset

      ends : List ℕ
      ends = chosen p.trust subset

      oversize : Option (List ℕ)
      oversize = pin_order_oversize p.L p.c_out p.c_in subset heads ends none

      are_heads : All (IsHead p subset) heads
      are_heads = heads_of-IsHead h

      are_ends : All (λ t. Mem t subset) ends
      are_ends = All-chosen (λ t. Mem t subset) p.trust subset (All-Mem subset)
