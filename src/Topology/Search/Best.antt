-- ===== src/Topology/Search/Best.antt =====
-- No ring that shard/shard/topology.py `_search` looks at is faster than the one that it returns.
use shard_glm_image.Base.{
  ℕ, zero, suc, ◌+◌, ◌-◌, ◌≤◌, ◌<◌, ◌≡◌, ◌∙◌, refl, sym, subst, true, false, Bool-cases, Option,
  none, some, inl, inr, List, [], ◌∷◌, All, arith, length, ltb, min, ℕ_discrete,
}
use shard_glm_image.Topology.Tour.{count_from}
use shard_glm_image.Topology.Search.{
  combinations, Pool, Ring, first_ring, is_eligible, better, over_subsets, over_sizes, search,
  pin_orders,
}

-- A ring was found, and it is as fast.
abbrev pub NoWorse : ℕ → Option Ring → Type 0
NoWorse n none = ⊥
NoWorse n (some ring) = ring.rank ≤ n

module _ (p : Pool) where
  better_keeps :
      (n : ℕ) (found hit : Option Ring) → NoWorse n found → NoWorse n (better p found hit)
  unfolding better
  better_keeps n none hit h = absurd h
  better_keeps n (some best) none h = h
  better_keeps n (some best) (some ring) h = elim (Bool-cases (ltb ring.rank best.rank)) [
    | inl y ↦ rw y (ground (arith, h, y))
    | inr slower ↦ rw slower h
  ]

  better_takes :
      (found : Option Ring) (ring : Ring) → NoWorse ring.rank (better p found (some ring))
  unfolding better
  better_takes none ring = omega arith
  better_takes (some best) ring = elim (Bool-cases (ltb ring.rank best.rank)) [
    | inl y ↦ rw y (omega arith)
    | inr slower ↦ rw slower (ground (arith, slower))
  ]

  over_subsets_keeps :
      (n k : ℕ) (subsets : List (List ℕ)) (found : Option Ring)
      → NoWorse n found
      → NoWorse n (over_subsets p k subsets found)
  unfolding over_subsets
  over_subsets_keeps n k [] found h = h
  over_subsets_keeps n k (subset ∷ subsets) found h = elim (Bool-cases (is_eligible p k subset)) [
    | inl y ↦
        let hit = first_ring p (pin_orders p subset k) in
        rw y (over_subsets_keeps n k subsets (better p found hit) (better_keeps n found hit h))
    | inr out ↦ rw out (over_subsets_keeps n k subsets found h)
  ]

  over_sizes_keeps :
      (n : ℕ) (usable ks : List ℕ) (found : Option Ring)
      → NoWorse n found
      → NoWorse n (over_sizes p usable ks found)
  unfolding over_sizes
  over_sizes_keeps n usable [] found h = h
  over_sizes_keeps n usable (k ∷ ks) found h =
      over_sizes_keeps n usable ks (over_subsets p k (combinations k usable) found)
        (over_subsets_keeps n k (combinations k usable) found h)

  -- The first ring of a subset that is not skipped.
  abbrev pub Offers : ℕ → List ℕ → Ring → Type 0
  Offers k subset ring =
      (is_eligible p k subset ≡ true) × (first_ring p (pin_orders p subset k) ≡ some ring)

  over_eligible :
      (k : ℕ) (subset : List ℕ) (subsets : List (List ℕ)) (found : Option Ring)
      → is_eligible p k subset ≡ true
      → over_subsets p k (subset ∷ subsets) found
        ≡ over_subsets p k subsets (better p found (first_ring p (pin_orders p subset k)))
  unfolding over_subsets
  over_eligible k subset subsets found y = rw y refl

  over_skipped :
      (k : ℕ) (subset : List ℕ) (subsets : List (List ℕ)) (found : Option Ring)
      → is_eligible p k subset ≡ false
      → over_subsets p k (subset ∷ subsets) found ≡ over_subsets p k subsets found
  unfolding over_subsets
  over_skipped k subset subsets found n = rw n refl

  -- What is returned is as fast as every ring that the subsets offer.
  abbrev pub Beats : ℕ → List (List ℕ) → Option Ring → Type 0
  Beats k subsets o =
      All (λ subset. (ring : Ring) → Offers k subset ring → NoWorse ring.rank o) subsets

  over_subsets-Beats :
      (k : ℕ) (subsets : List (List ℕ)) (found : Option Ring)
      → Beats k subsets (over_subsets p k subsets found)
  over_subsets-Beats k [] found = tt
  over_subsets-Beats k (subset ∷ subsets) found = elim (Bool-cases (is_eligible p k subset)) [
    | inl y ↦
        let hit = first_ring p (pin_orders p subset k) in
        subst (Beats k (subset ∷ subsets)) (sym (over_eligible k subset subsets found y)) (
          λ (ring : Ring) ((eligible, offered) : Offers k subset ring).
              over_subsets_keeps ring.rank k subsets (better p found hit) (
                subst (λ (o : Option Ring). NoWorse ring.rank (better p found o)) (sym offered)
                  (better_takes found ring)),
          over_subsets-Beats k subsets (better p found hit),
        )
    | inr out ↦ subst (Beats k (subset ∷ subsets)) (sym (over_skipped k subset subsets found out)) (
      λ (ring : Ring) ((eligible, offered) : Offers k subset ring).
          absurd (cc (sym out ∙ eligible)),
      over_subsets-Beats k subsets found,
    )
  ]

  Beats-later :
      (k : ℕ) (usable ks : List ℕ) (subsets : List (List ℕ)) (found : Option Ring)
      → Beats k subsets found
      → Beats k subsets (over_sizes p usable ks found)
  Beats-later k usable ks [] found a = tt
  Beats-later k usable ks (subset ∷ subsets) found (a, rest) = (
    λ (ring : Ring) (offered : Offers k subset ring).
        over_sizes_keeps ring.rank usable ks found (a ring offered),
    Beats-later k usable ks subsets found rest,
  )

  over_sizes-Beats :
      (usable : List ℕ) (i m : ℕ) (found : Option Ring) (k : ℕ)
      → i ≤ k
      → k < i + m
      → Beats k (combinations k usable) (over_sizes p usable (count_from i m) found)
  unfolding over_sizes count_from
  over_sizes-Beats usable i zero found k lower upper = absurd (omega (arith, lower, upper))
  over_sizes-Beats usable i (suc m) found k lower upper = elim (ℕ_discrete k i) [
    | yes e ↦
        subst
          (λ (j : ℕ).
            Beats j (combinations j usable) (over_sizes p usable (i ∷ count_from (suc i) m) found))
          (sym e)
          (Beats-later i usable (count_from (suc i) m) (combinations i usable)
            (over_subsets p i (combinations i usable) found)
            (over_subsets-Beats i (combinations i usable) found))
    | no later ↦
        let below : i < k = ground (arith, lower, later) in
        over_sizes-Beats usable (suc i) m (over_subsets p i (combinations i usable) found) k
          (omega (arith, below)) (omega (arith, upper))
  ]

  -- Of the sizes that it searches, `_search` finds a ring if any subset of the pool that it does not skip has one, and the
  -- ring that it returns is as fast as the first ring of each such subset in the order of `_pin_orders`.
  pub search-Beats :
      (usable : List ℕ) (k_lo k_hi k : ℕ)
      → k_lo ≤ k
      → k ≤ k_hi
      → k ≤ length usable
      → Beats k (combinations k usable) (search p usable k_lo k_hi)
  unfolding search
  search-Beats usable k_lo k_hi k lower upper some_left =
      over_sizes-Beats usable k_lo (suc (min k_hi (length usable)) - k_lo) none k lower
        (omega (arith, lower, upper, some_left))
