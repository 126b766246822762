-- ===== src/Topology/Search/Found.antt =====
-- What a ring that shard/shard/topology.py `_search` finds is, and that none is cheaper.
use mathlib.Core.Logic.Or
use mathlib.Core.List.{Perm, Mem, Mem-prop, Nodup, not-mem-nil, eq-or-mem_of_mem-cons}
use mathlib.Core.List.Perm
use shard_glm_image.Base.{
  ℕ, suc, ◌≤◌, ◌≡◌, ◌∙◌, refl, sym, subst, Bool, true, false, Bool-cases, Option, none, some,
  Option-cases, inl, inr, List, [], ◌∷◌, All, arith, length, map, if◌then◌else◌, ltb, ap, sum_of,
  min, max,
}
use shard_glm_image.Topology.Assign.{assign_layers, base_of}
use shard_glm_image.Topology.Assign.Correct.{assign_layers-IsValid}
use shard_glm_image.Topology.Pins.{pin_floors, all_in, boundary_nodes}
use shard_glm_image.Topology.Tour.{range}
use shard_glm_image.Topology.Search.{
  combinations, Pool, Ring, misses, accepted, ring_at, first_ring, is_eligible, better,
  over_subsets, over_sizes, search, pin_orders, predict_step_ms,
}
use shard_glm_image.Topology.Search.Picked.{
  set_size-Nodup, Nodup-of-map, Nodup-Distinct, IsPick, combinations-IsPick, All-Mem,
}
use shard_glm_image.Topology.Search.Orders.{Headed, IsOrder, pin_orders-IsOrder}

all_in-All :
    (trust : ℕ → Bool) (ns : List ℕ) → all_in trust ns ≡ true → All (λ n. trust n ≡ true) ns
unfolding all_in
all_in-All trust [] h = tt
all_in-All trust (n ∷ ns) h = (ground (arith, h), all_in-All trust ns (ground (arith, h)))

pub member : (ns usable : List ℕ) → All (λ n. Mem n usable) ns → (n : ℕ) → Mem n ns → Mem n usable
member [] usable a n m = absurd (not-mem-nil m)
member (k ∷ ns) usable (here, a) n m =
    Or.elim Mem-prop (eq-or-mem_of_mem-cons m) (λ e. subst (λ (j : ℕ). Mem j usable) (sym e) here)
      (λ there. member ns usable a n there)

base_of-positive : (floors : ℕ → Option ℕ) (n : ℕ) → 1 ≤ base_of floors n
unfolding base_of
base_of-positive floors n = go (floors n)
  where
    go : (o : Option ℕ) → 1 ≤ elim o as (λ x. ℕ) [ none ↦ 1 | some f ↦ max 1 f ]
    go none = omega arith
    go (some f) = omega arith

module _ (p : Pool) (usable : List ℕ) where
  -- A ring of the pool that serves the model: of usable nodes in different subnets, behind the head that is asked for,
  -- each with layers that fit, all the layers of the model together, and trusted nodes where it matters.
  pub record IsServing (ring : Ring) : Type 0 where
    pub members : (n : ℕ) → Mem n ring.order → Mem n usable
    pub apart : Nodup (map p.subnet ring.order)
    pub headed : Headed p.require ring.order
    pub boundary :
        All (λ n. p.trust n ≡ true) (boundary_nodes ring.order ring.alloc p.n_layers p.b_in p.b_out)
    pub bounds : All (λ n. (1 ≤ ring.alloc n) × (ring.alloc n ≤ p.caps n)) ring.order
    pub total : sum_of ring.alloc ring.order ≡ p.n_layers
    pub cost : ring.rank ≡ predict_step_ms p ring.order ring.alloc

  -- A subset that `_search` does not skip.
  pub record IsTried (subset : List ℕ) : Type 0 where
    pub within : (n : ℕ) → Mem n subset → Mem n usable
    pub apart : Nodup (map p.subnet subset)
    pub requires : misses p.require subset ≡ false

  serving :
      (subset order : List ℕ) (floors : ℕ → Option ℕ) (alloc : ℕ → ℕ)
      → IsTried subset
      → Perm order subset
      → Headed p.require order
      → assign_layers order p.n_layers p.caps p.layer_ms floors ≡ some alloc
      → all_in p.trust (boundary_nodes order alloc p.n_layers p.b_in p.b_out) ≡ true
      → IsServing (record { rank = predict_step_ms p order alloc; order = order; alloc = alloc })
  serving subset order floors alloc tried arranged headed assigned trusted =
      let apart : Nodup (map p.subnet order) =
        Perm.nodup (Perm.map p.subnet (Perm.symm arranged)) tried.apart in
      let distinct = Nodup-Distinct order (Nodup-of-map p.subnet order apart) in
      let valid =
        assign_layers-IsValid order p.n_layers p.caps p.layer_ms floors distinct alloc assigned in
      record {
        members = λ n m. tried.within n ((Perm.mem_iff arranged).0 m);
        apart = apart;
        headed = headed;
        boundary =
            all_in-All p.trust (boundary_nodes order alloc p.n_layers p.b_in p.b_out) trusted;
        bounds = within_bounds order valid.bounds;
        total = valid.total;
        cost = refl;
      }
    where
      within_bounds :
          (ns : List ℕ)
          → All (λ n. (base_of floors n ≤ alloc n) × (alloc n ≤ p.caps n)) ns
          → All (λ n. (1 ≤ alloc n) × (alloc n ≤ p.caps n)) ns
      within_bounds [] a = tt
      within_bounds (n ∷ ns) ((lower, upper), a) =
          ((omega (arith, lower, base_of-positive floors n), upper), within_bounds ns a)

  accepted-IsServing :
      (subset order : List ℕ) (floors : ℕ → Option ℕ) (ring : Ring)
      → IsTried subset
      → Perm order subset
      → Headed p.require order
      → accepted p order (assign_layers order p.n_layers p.caps p.layer_ms floors) ≡ some ring
      → IsServing ring
  unfolding accepted
  accepted-IsServing subset order floors ring tried arranged headed =
      go (assign_layers order p.n_layers p.caps p.layer_ms floors) refl
    where
      is_trusted : (ℕ → ℕ) → Bool
      is_trusted alloc = all_in p.trust (boundary_nodes order alloc p.n_layers p.b_in p.b_out)

      go :
          (o : Option (ℕ → ℕ))
          → assign_layers order p.n_layers p.caps p.layer_ms floors ≡ o
          → accepted p order o ≡ some ring
          → IsServing ring
      go none e h = absurd (cc h)
      go (some alloc) e h = elim (Bool-cases (is_trusted alloc)) [
        | inl y ↦
            subst IsServing (the_ring alloc y h)
              (serving subset order floors alloc tried arranged headed e y)
        | inr n ↦ absurd (cc (sym (ap (λ (b : Bool). if b then some (made alloc) else none) n) ∙ h))
      ]
        where
          made : (ℕ → ℕ) → Ring
          made alloc = record { rank = predict_step_ms p order alloc; order = order; alloc = alloc }

          the_ring :
              (alloc : ℕ → ℕ)
              → is_trusted alloc ≡ true
              → accepted p order (some alloc) ≡ some ring
              → made alloc ≡ ring
          the_ring alloc y h =
              cc (sym (ap (λ (b : Bool). if b then some (made alloc) else none) y) ∙ h)

  ring_at-IsServing :
      (subset order : List ℕ) (ring : Ring)
      → IsTried subset
      → IsOrder p subset order
      → ring_at p order ≡ some ring
      → IsServing ring
  unfolding ring_at
  ring_at-IsServing subset order ring tried (arranged, headed) =
      go (pin_floors p.trust p.caps p.n_layers p.b_in p.b_out order)
    where
      go :
          (o : Option (ℕ → Option ℕ))
          → elim o as (λ x. Option Ring) [
            | none ↦ none
            | some floors ↦
                accepted p order (assign_layers order p.n_layers p.caps p.layer_ms floors)
          ]
            ≡ some ring
          → IsServing ring
      go none h = absurd (cc h)
      go (some floors) h = accepted-IsServing subset order floors ring tried arranged headed h

  first_ring-IsServing :
      (subset : List ℕ) (orders : List (List ℕ)) (ring : Ring)
      → IsTried subset
      → All (IsOrder p subset) orders
      → first_ring p orders ≡ some ring
      → IsServing ring
  unfolding first_ring
  first_ring-IsServing subset [] ring tried a h = absurd (cc h)
  first_ring-IsServing subset (order ∷ orders) ring tried (is_order, a) h =
      elim (Option-cases (ring_at p order)) [
        | inl nothing ↦
            first_ring-IsServing subset orders ring tried a
              (cc (sym (first_none order orders nothing) ∙ h))
        | inr (found, e) ↦
            ring_at-IsServing subset order ring tried is_order
              (e ∙ cc (sym (first_some order orders found e) ∙ h))
      ]
    where
      first_none :
          (order : List ℕ) (orders : List (List ℕ))
          → ring_at p order ≡ none
          → first_ring p (order ∷ orders) ≡ first_ring p orders
      first_none order orders e = rw (e, first_ring) refl

      first_some :
          (order : List ℕ) (orders : List (List ℕ)) (found : Ring)
          → ring_at p order ≡ some found
          → first_ring p (order ∷ orders) ≡ some found
      first_some order orders found e = rw (e, first_ring) refl

  -- The ring found so far.
  abbrev pub MaybeServing : Option Ring → Type 0
  MaybeServing none = Unit
  MaybeServing (some ring) = IsServing ring

  better-MaybeServing :
      (found hit : Option Ring)
      → MaybeServing found
      → ((ring : Ring) → hit ≡ some ring → IsServing ring)
      → MaybeServing (better p found hit)
  unfolding better
  better-MaybeServing none none a b = tt
  better-MaybeServing (some best) none a b = a
  better-MaybeServing none (some ring) a b = b ring refl
  better-MaybeServing (some best) (some ring) a b = elim (Bool-cases (ltb ring.rank best.rank)) [
    | inl y ↦ rw y (b ring refl)
    | inr n ↦ rw n a
  ]

  tried :
      (subset : List ℕ)
      → All (λ n. Mem n usable) subset
      → is_eligible p (length subset) subset ≡ true
      → IsTried subset
  unfolding is_eligible
  tried subset a h = record {
    within = member subset usable a;
    apart = set_size-Nodup (map p.subnet subset) (ground (arith, h, length-map subset));
    requires = ground (arith, h);
  }
    where
      length-map : (ns : List ℕ) → length (map p.subnet ns) ≡ length ns
      length-map [] = refl
      length-map (n ∷ ns) = omega (arith, length-map ns)

  over_subsets-MaybeServing :
      (k : ℕ) (subsets : List (List ℕ)) (found : Option Ring)
      → All (IsPick (λ n. Mem n usable) k) subsets
      → MaybeServing found
      → MaybeServing (over_subsets p k subsets found)
  unfolding over_subsets
  over_subsets-MaybeServing k [] found a b = b
  over_subsets-MaybeServing k (subset ∷ subsets) found ((long, within), a) b =
      elim (Bool-cases (is_eligible p k subset)) [
        | inr n ↦ rw n (over_subsets-MaybeServing k subsets found a b)
        | inl y ↦
            let is_tried = tried subset within (ap (λ (m : ℕ). is_eligible p m subset) long ∙ y) in
            let orders =
              subst (λ (m : ℕ). All (IsOrder p subset) (pin_orders p subset m)) long
                (pin_orders-IsOrder p subset
                  (Nodup-Distinct subset (Nodup-of-map p.subnet subset is_tried.apart))
                  is_tried.requires) in
            rw y (
              over_subsets-MaybeServing k subsets
                (better p found (first_ring p (pin_orders p subset k))) a
                (better-MaybeServing found (first_ring p (pin_orders p subset k)) b
                  (λ (ring : Ring) (hit : first_ring p (pin_orders p subset k) ≡ some ring).
                    first_ring-IsServing subset (pin_orders p subset k) ring is_tried orders hit)))
      ]

  over_sizes-MaybeServing :
      (ks : List ℕ) (found : Option Ring)
      → MaybeServing found
      → MaybeServing (over_sizes p usable ks found)
  unfolding over_sizes
  over_sizes-MaybeServing [] found b = b
  over_sizes-MaybeServing (k ∷ ks) found b =
      over_sizes-MaybeServing ks (over_subsets p k (combinations k usable) found) (
        over_subsets-MaybeServing k (combinations k usable) found
          (combinations-IsPick (λ n. Mem n usable) k usable (All-Mem usable)) b)

  pub search-IsServing :
      (k_lo k_hi : ℕ) (ring : Ring) → search p usable k_lo k_hi ≡ some ring → IsServing ring
  unfolding search
  search-IsServing k_lo k_hi ring h =
      subst MaybeServing h
        (over_sizes-MaybeServing (range k_lo (suc (min k_hi (length usable)))) none tt)
