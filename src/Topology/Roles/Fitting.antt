-- ===== src/Topology/Roles/Fitting.antt =====
-- The roles fit the nodes that are given them (shard/shard/topology.py `_relegate`).
use shard_glm_image.Base.{
  ℕ, ◌≤◌, ◌<◌, ◌≡◌, ◌≢◌, refl, ap, List, [], ◌∷◌, Bool, true, false, not, ◌||◌, arith, All, ◌⊎◌,
  inl, inr, Bool-cases, leb, All-zip_with, ◌==◌, max, map, if◌then◌else◌,
}
use shard_glm_image.Topology.Assign.{any}
use shard_glm_image.Topology.Pins.{or_zero}
use shard_glm_image.Topology.Roles.{
  Role, weight_seeder, aggregator, hot_standby, decode_only_replica, spot_check_verifier, up, most,
  Pool, is_trusted, in_ring, role_of, relegate,
}

most_above :
    (key : ℕ → ℕ) (first : ℕ) (order : List ℕ)
    → All (λ s. key s ≤ most key first order) (first ∷ order)
unfolding most
most_above key first [] = (omega arith, tt)
most_above key first (n ∷ order) = (omega arith, lift (n ∷ order) (most_above key n order))
  where
    lift :
        (xs : List ℕ)
        → All (λ s. key s ≤ most key n order) xs
        → All (λ s. key s ≤ max (key first) (most key n order)) xs
    lift [] h = tt
    lift (x ∷ xs) h = (omega (arith, h.0), lift xs h.1)

none_of : (p : ℕ → Bool) (order : List ℕ) → any p order ≡ false → All (λ s. p s ≡ false) order
unfolding any
none_of p [] h = tt
none_of p (s ∷ order) h = (ground (arith, h), none_of p order (ground (arith, h)))

-- What a role asks of the node, with a ring of `order`.
pub Fits : Pool → List ℕ → ℕ → Role → Type 0
Fits p order n weight_seeder = or_zero (p.caps n) ≡ 0
Fits p order n aggregator =
    (0 < or_zero (p.caps n))
    × All (λ s. (up p.up_kbps s ≤ up p.up_kbps n) × (p.subnet s ≢ p.subnet n)) order
Fits p order n hot_standby =
    (0 < or_zero (p.caps n))
    × (in_ring p.subnet order n ≡ true)
    × ((is_trusted p.trusted n ≡ true) ⊎ All (λ b. b ≢ p.subnet n) p.boundary_subnets)
Fits p order n decode_only_replica =
    (0 < or_zero (p.caps n)) × (any (λ s. leb (p.layer_ms n) (p.layer_ms s)) order ≡ true)
Fits p order n spot_check_verifier =
    (0 < or_zero (p.caps n)) × All (λ s. p.layer_ms s < p.layer_ms n) order

-- The five branches, each with the tests that lead to it.
branches :
    (a b c d : Bool) (P : Role → Type 0)
    → (a ≡ true → P weight_seeder)
    → (a ≡ false → b ≡ true → P aggregator)
    → (a ≡ false → c ≡ true → P hot_standby)
    → (a ≡ false → d ≡ true → P decode_only_replica)
    → (a ≡ false → d ≡ false → P spot_check_verifier)
    → P (
        if a
        then weight_seeder
        else if b
        then aggregator
        else if c
        then hot_standby
        else if d
        then decode_only_replica
        else spot_check_verifier)
branches true b c d P h1 h2 h3 h4 h5 = h1 refl
branches false true c d P h1 h2 h3 h4 h5 = h2 refl refl
branches false false true d P h1 h2 h3 h4 h5 = h3 refl refl
branches false false false true P h1 h2 h3 h4 h5 = h4 refl refl
branches false false false false P h1 h2 h3 h4 h5 = h5 refl refl

module _ (p : Pool) (first : ℕ) (order : List ℕ) (n : ℕ) where
  distinct_from :
      (xs : List ℕ)
      → any (λ s. p.subnet s == p.subnet n) xs ≡ false
      → All (λ s. p.subnet s ≢ p.subnet n) xs
  unfolding any
  distinct_from [] h = tt
  distinct_from (s ∷ xs) h = ((λ e. ground (arith, h, e)), distinct_from xs (ground (arith, h)))

  off_boundary :
      (xs : List ℕ) → any (λ b. b == p.subnet n) xs ≡ false → All (λ b. b ≢ p.subnet n) xs
  unfolding any
  off_boundary [] h = tt
  off_boundary (b ∷ xs) h = ((λ e. ground (arith, h, e)), off_boundary xs (ground (arith, h)))

  -- The slowest of the ring is one of the ring.
  reached :
      (a : ℕ) (xs : List ℕ) (v : ℕ)
      → v ≤ most p.layer_ms a xs
      → any (λ s. leb v (p.layer_ms s)) (a ∷ xs) ≡ true
  unfolding most any
  reached a [] v h = ground (arith, h)
  reached a (b ∷ xs) v h = elim (Bool-cases (leb v (p.layer_ms a))) [
    | inl y ↦ rw y refl
    | inr no_more ↦ ground (arith, no_more, reached b xs v (ground (arith, h, no_more)))
  ]

  role_of-Fits : Fits p (first ∷ order) n (role_of p first order n)
  unfolding role_of Fits in_ring
  role_of-Fits =
      branches _ _ _ _ (Fits p (first ∷ order) n) (λ a. ground (arith, a))
        (λ a b. (
          ground (arith, a),
          All-zip_with (first ∷ order) (λ s low apart. (ground (arith, b, low), apart))
              (most_above (up p.up_kbps) first order)
              (distinct_from (first ∷ order) (ground (arith, b))),
        ))
        (λ a c. (
          ground (arith, a),
          ground (arith, c),
          standby (is_trusted p.trusted n) (any (λ b. b == p.subnet n) p.boundary_subnets)
              (off_boundary p.boundary_subnets) (ground (arith, c)),
        ))
        (λ a d. (ground (arith, a), reached first order (p.layer_ms n) (ground (arith, d))))
        (λ a d. (
          ground (arith, a),
          All-zip_with (first ∷ order) (λ s low same. ground (arith, d, low))
              (most_above p.layer_ms first order) (most_above p.layer_ms first order),
        ))
    where
      standby :
          (t b : Bool)
          → (b ≡ false → All (λ b. b ≢ p.subnet n) p.boundary_subnets)
          → (t || not b) ≡ true
          → (t ≡ true) ⊎ All (λ b. b ≢ p.subnet n) p.boundary_subnets
      standby true b off h = inl refl
      standby false true off h = absurd (ground (arith, h))
      standby false false off h = inr (off refl)

-- Every dropped node is given one role, in order, and the role fits the node: a seeder has no capacity, and
-- any other role has some; an aggregator uploads as fast as every stage of the ring and shares no subnet
-- with one; a standby shares a subnet with a stage, and it is trusted or shares none with a stage of the
-- boundary; a replica computes a layer as fast as some stage, and a verifier slower than every stage.
pub relegate-Fits :
    (p : Pool) (first : ℕ) (order dropped : List ℕ)
    → (map (λ (e : ℕ × Role). e.0) (relegate p (first ∷ order) dropped) ≡ dropped)
      × All (λ (e : ℕ × Role). Fits p (first ∷ order) e.0 e.1) (relegate p (first ∷ order) dropped)
unfolding relegate
relegate-Fits p first order [] = (refl, tt)
relegate-Fits p first order (n ∷ dropped) =
    let (names, fit) = relegate-Fits p first order dropped in
    (ap (◌∷◌ n) names, (role_of-Fits p first order n, fit))
