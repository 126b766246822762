-- ===== src/Topology/Pins/Held.antt =====
-- Every leaky layer of a pinned ring lies in the block of a trusted node (shard/shard/topology.py).
use shard_glm_image.Base.{
  ℕ, ◌+◌, ◌-◌, ◌≤◌, ◌<◌, ◌≡◌, refl, Option, none, some, List, [], ◌∷◌, Bool, true, arith, ◌⊎◌, inl,
  inr, Bool-cases, sum_of, ltb, if◌then◌else◌, All-zip_with,
}
use shard_glm_image.Base.Sort.{Distinct}
use shard_glm_image.Topology.Assign.{assign_layers}
use shard_glm_image.Topology.Assign.Correct.{assign_layers-IsValid}
use shard_glm_image.Topology.Pins.{pin_floors, blocks}
use shard_glm_image.Topology.Pins.Safe.{Early, Late, pinned_parts}

-- The stage whose block ends behind a layer, the first such.
unfoldable pub holder : List (ℕ × ℕ × ℕ) → ℕ → Option ℕ
holder [] l = none
holder ((n, lo, hi) ∷ rest) l = if ltb l hi then some n else holder rest l

module _ (trust : ℕ → Bool) (alloc : ℕ → ℕ) (n_layers b_in b_out l : ℕ) where
  held :
      (lo : ℕ) (order : List ℕ)
      → lo ≤ l
      → l < lo + sum_of alloc order
      → (l < b_in) ⊎ (n_layers ≤ l + b_out)
      → Early trust alloc b_in lo order
      → Late trust alloc (n_layers - b_out) lo order
      → (n : ℕ) × (holder (blocks alloc lo order) l ≡ some n) × (trust n ≡ true)
  unfolding holder blocks Early Late
  held lo [] low high is_leaky early late = absurd (omega (arith, low, high))
  held lo (n ∷ order) low high is_leaky early late = elim (Bool-cases (ltb l (lo + alloc n))) [
    | inl y ↦ (
      n,
      rw y refl,
      elim is_leaky [
        | inl i ↦ early.0 (omega (arith, i, low))
        | inr o ↦ late.0 (ground (arith, o, y))
      ],
    )
    | inr behind ↦
        let (m, found, good) =
          held (lo + alloc n) order (ground (arith, behind)) (omega (arith, high)) is_leaky early.1
            late.1 in
        (m, rw behind found, good)
  ]

-- In an order without repeated nodes, when `assign_layers` divides the layers under the floors that
-- `pin_floors` returned, every layer of the model that is among the first `b_in` or the last `b_out` lies in
-- the block of some stage, and that stage is a trusted node.
pub pin_floors-blocks :
    (trust : ℕ → Bool) (caps layer_ms : ℕ → ℕ) (n_layers b_in b_out : ℕ) (order : List ℕ)
    (floors : ℕ → Option ℕ) (alloc : ℕ → ℕ) (l : ℕ)
    → Distinct order
    → pin_floors trust caps n_layers b_in b_out order ≡ some floors
    → assign_layers order n_layers caps layer_ms floors ≡ some alloc
    → l < n_layers
    → (l < b_in) ⊎ (n_layers ≤ l + b_out)
    → (n : ℕ) × (holder (blocks alloc 0 order) l ≡ some n) × (trust n ≡ true)
pin_floors-blocks trust caps layer_ms n_layers b_in b_out order floors alloc l distinct pinned
      assigned below is_leaky =
    let valid = assign_layers-IsValid order n_layers caps layer_ms floors distinct alloc assigned in
    let kept = All-zip_with order (λ n b c. b.0) valid.bounds valid.bounds in
    let (starts, ends, early, late) =
      pinned_parts trust alloc caps n_layers b_in b_out order floors pinned kept valid.total in
    held trust alloc n_layers b_in b_out l 0 order (omega arith) (omega (arith, below, valid.total))
      is_leaky early late
