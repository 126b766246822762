-- ===== src/Topology/Pins/Safe.antt =====
-- Pinned floors keep every leaky layer on a trusted node (shard/shard/topology.py).
use mathlib.Core.List.{reverse-append, reverse-reverse}
use shard_glm_image.Base.{
  ℕ, ◌+◌, ◌-◌, ◌≤◌, ◌<◌, ◌≡◌, ◌∙◌, sym, ap, subst, Option, none, some, List, [], ◌∷◌, ◌++◌, Bool,
  true, ◌&&◌, arith, All, sum_of, ltb, leb, Bool-cases, Option-cases, inl, inr, reverse,
  All-zip_with, sum_of_mono,
}
use shard_glm_image.Base.Table.{sum_of-append}
use shard_glm_image.Base.Sort.{Distinct}
use shard_glm_image.Topology.Assign.{base_of, assign_layers}
use shard_glm_image.Topology.Assign.Correct.{assign_layers-IsValid}
use shard_glm_image.Topology.Pins.{
  floor_of, all_in, cover, ends_in, starts_in, cover_both, pin_floors, leaky, last_of,
  boundary_nodes,
}
use shard_glm_image.Topology.Pins.Cover.{
  All_parts, All-reverse, sum_of-reverse, floor_of_base, cover-Covers, Rises, Trusted, Covers,
}

module _ (trust : ℕ → Bool) (alloc : ℕ → ℕ) where
  -- The stages that start before the cut are trusted, from layer `lo` on.
  unfoldable pub Early : ℕ → ℕ → List ℕ → Type 0
  Early b_in lo [] = Unit {0}
  Early b_in lo (n ∷ order) = (lo < b_in → trust n ≡ true) × Early b_in (lo + alloc n) order

  -- The stages that end behind the cut are trusted.
  unfoldable pub Late : ℕ → ℕ → List ℕ → Type 0
  Late hi_cut lo [] = Unit {0}
  Late hi_cut lo (n ∷ order) =
      (hi_cut < lo + alloc n → trust n ≡ true) × Late hi_cut (lo + alloc n) order

  Early-behind : (b_in lo : ℕ) (order : List ℕ) → b_in ≤ lo → Early b_in lo order
  unfolding Early
  Early-behind b_in lo [] h = tt
  Early-behind b_in lo (n ∷ order) h = (
    (λ l. absurd (omega (arith, l, h))),
    Early-behind b_in (lo + alloc n) order (omega (arith, h)),
  )

  Early-front :
      (b_in lo : ℕ) (front behind : List ℕ)
      → Trusted trust front
      → b_in ≤ lo + sum_of alloc front
      → Early b_in lo (front ++ behind)
  unfolding Early
  Early-front b_in lo [] behind t h = Early-behind b_in lo behind (omega (arith, h))
  Early-front b_in lo (n ∷ front) behind t h =
      ((λ l. t.0), Early-front b_in (lo + alloc n) front behind t.1 (omega (arith, h)))

  Late-back : (hi_cut lo : ℕ) (back : List ℕ) → Trusted trust back → Late hi_cut lo back
  unfolding Late
  Late-back hi_cut lo [] t = tt
  Late-back hi_cut lo (n ∷ back) t = ((λ l. t.0), Late-back hi_cut (lo + alloc n) back t.1)

  Late-split :
      (hi_cut lo : ℕ) (ahead back : List ℕ)
      → Trusted trust back
      → lo + sum_of alloc ahead ≤ hi_cut
      → Late hi_cut lo (ahead ++ back)
  unfolding Late
  Late-split hi_cut lo [] back t h = Late-back hi_cut lo back t
  Late-split hi_cut lo (n ∷ ahead) back t h = (
    (λ l. absurd (omega (arith, l, h))),
    Late-split hi_cut (lo + alloc n) ahead back t (omega (arith, h)),
  )

  leaky-Trusted :
      (b_in hi_cut lo : ℕ) (order : List ℕ)
      → Early b_in lo order
      → Late hi_cut lo order
      → Trusted trust (leaky alloc b_in hi_cut lo order)
  unfolding leaky Early Late
  leaky-Trusted b_in hi_cut lo [] early late = tt
  leaky-Trusted b_in hi_cut lo (n ∷ order) early late =
      let rest = leaky-Trusted b_in hi_cut (lo + alloc n) order early.1 late.1 in
      elim (Bool-cases (ltb lo b_in)) [
        | inl y ↦ rw y (early.0 (ground (arith, y)), rest)
        | inr n1 ↦ elim (Bool-cases (ltb hi_cut (lo + alloc n))) [
          | inl y ↦ rw (n1, y) (late.0 (ground (arith, y)), rest)
          | inr n2 ↦ rw (n1, n2) rest
        ]
      ]

  Early-all : (b_in lo : ℕ) (order : List ℕ) → Trusted trust order → Early b_in lo order
  unfolding Early
  Early-all b_in lo [] t = tt
  Early-all b_in lo (n ∷ order) t = ((λ l. t.0), Early-all b_in (lo + alloc n) order t.1)

  all_in-Trusted : (order : List ℕ) → all_in trust order ≡ true → Trusted trust order
  unfolding all_in
  all_in-Trusted [] h = tt
  all_in-Trusted (n ∷ order) h = (ground (arith, h), all_in-Trusted order (ground (arith, h)))

  ends_in-last_of :
      (n : ℕ) (order : List ℕ) → ends_in trust (n ∷ order) ≡ true → trust (last_of n order) ≡ true
  unfolding ends_in last_of
  ends_in-last_of n [] h = h
  ends_in-last_of n (m ∷ order) h = ends_in-last_of m order h

  -- The floors of a part are kept by a layout that keeps all floors.
  floors_kept :
      (g : ℕ → Option ℕ) (part : List ℕ)
      → All (λ n. base_of g n ≤ alloc n) part
      → sum_of (floor_of g) part ≤ sum_of alloc part
  floors_kept g [] h = omega arith
  floors_kept g (n ∷ part) h = omega (arith, h.0, floor_of_base g n, floors_kept g part h.1)

  -- From the front.
  covered-Early :
      (caps : ℕ → ℕ) (b_in : ℕ) (order : List ℕ) (f g : ℕ → Option ℕ)
      → Rises f g
      → Covers trust f b_in order
      → All (λ n. base_of g n ≤ alloc n) order
      → Early b_in 0 order
  covered-Early caps b_in order f g rises c kept =
      let parts = All_parts _ c.front c.behind (subst (All _) c.split kept) in
      let held = floors_kept g c.front parts.0 in
      let risen = sum_of_mono (floor_of f) (floor_of g) c.front (everywhere c.front) in
      subst (Early b_in 0) (sym c.split)
        (Early-front b_in 0 c.front c.behind c.trusted (omega (arith, c.enough, held, risen)))
    where
      everywhere : (xs : List ℕ) → All (λ n. floor_of f n ≤ floor_of g n) xs
      everywhere [] = tt
      everywhere (x ∷ xs) = (rises x, everywhere xs)

  -- From the back.
  covered-Late :
      (n_layers b_out : ℕ) (order : List ℕ) (g : ℕ → Option ℕ)
      → Covers trust g b_out (reverse order)
      → All (λ n. base_of g n ≤ alloc n) order
      → sum_of alloc order ≡ n_layers
      → Late (n_layers - b_out) 0 order
  covered-Late n_layers b_out order g c kept total =
      let split : order ≡ reverse c.behind ++ reverse c.front =
        sym (reverse-reverse order) ∙ ap reverse c.split ∙ reverse-append c.front c.behind in
      let parts = All_parts _ c.front c.behind (subst (All _) c.split (All-reverse _ order kept)) in
      let held = floors_kept g c.front parts.0 in
      let whole =
        ap (sum_of alloc) split ∙ sum_of-append alloc (reverse c.behind) (reverse c.front) in
      subst (Late (n_layers - b_out) 0) (sym split) (
        Late-split (n_layers - b_out) 0 (reverse c.behind) (reverse c.front)
          (All-reverse _ c.front c.trusted)
          (omega (arith, c.enough, held, whole, total, sum_of-reverse alloc c.front)))

  both_covered :
      (caps : ℕ → ℕ) (n_layers b_in b_out : ℕ) (order : List ℕ) (floors : ℕ → Option ℕ)
      → cover_both trust caps b_in b_out order ≡ some floors
      → All (λ n. base_of floors n ≤ alloc n) order
      → sum_of alloc order ≡ n_layers
      → Early b_in 0 order × Late (n_layers - b_out) 0 order
  unfolding cover_both
  both_covered caps n_layers b_in b_out order floors h kept total =
      elim (Option-cases (cover trust caps b_in order (λ n. none))) [
        | inl e ↦ absurd (ground (arith, h, e))
        | inr (f, e) ↦
            let (rises1, in_front) = cover-Covers trust caps b_in order (λ n. none) f e in
            let second : cover trust caps b_out (reverse order) f ≡ some floors =
              ground (arith, h, e) in
            let (rises2, in_back) = cover-Covers trust caps b_out (reverse order) f floors second in
            (
              covered-Early caps b_in order f floors rises2 in_front kept,
              covered-Late n_layers b_out order floors in_back kept total,
            )
      ]

  pub pinned_parts :
      (caps : ℕ → ℕ) (n_layers b_in b_out : ℕ) (order : List ℕ) (floors : ℕ → Option ℕ)
      → pin_floors trust caps n_layers b_in b_out order ≡ some floors
      → All (λ n. base_of floors n ≤ alloc n) order
      → sum_of alloc order ≡ n_layers
      → (starts_in trust order ≡ true)
        × (ends_in trust order ≡ true)
        × Early b_in 0 order
        × Late (n_layers - b_out) 0 order
  unfolding pin_floors
  pinned_parts caps n_layers b_in b_out order floors h kept total =
      elim (Bool-cases (starts_in trust order && ends_in trust order)) [
        | inr n ↦ absurd (ground (arith, h, n))
        | inl y ↦ elim (Bool-cases (leb n_layers (b_in + b_out))) [
          | inl full ↦
              let all = all_in-Trusted order (ground (arith, h, y, full)) in
              (
                ground (arith, y),
                ground (arith, y),
                Early-all b_in 0 order all,
                Late-back (n_layers - b_out) 0 order all,
              )
          | inr apart ↦
              let both : cover_both trust caps b_in b_out order ≡ some floors =
                ground (arith, h, y, apart) in
              let (early, late) =
                both_covered caps n_layers b_in b_out order floors both kept total in
              (ground (arith, y), ground (arith, y), early, late)
        ]
      ]

  -- The boundary of a layout that keeps the floors and hands out exactly the model's layers.
  pinned_boundary :
      (caps : ℕ → ℕ) (n_layers b_in b_out : ℕ) (order : List ℕ) (floors : ℕ → Option ℕ)
      → pin_floors trust caps n_layers b_in b_out order ≡ some floors
      → All (λ n. base_of floors n ≤ alloc n) order
      → sum_of alloc order ≡ n_layers
      → Trusted trust (boundary_nodes order alloc n_layers b_in b_out)
  unfolding boundary_nodes starts_in
  pinned_boundary caps n_layers b_in b_out [] floors h kept total = tt
  pinned_boundary caps n_layers b_in b_out (n ∷ order) floors h kept total =
      let (starts, ends, early, late) =
        pinned_parts caps n_layers b_in b_out (n ∷ order) floors h kept total in
      (
        starts,
        (
          ends_in-last_of n order ends,
          leaky-Trusted b_in (n_layers - b_out) 0 (n ∷ order) early late,
        ),
      )

-- In an order without repeated nodes, when `assign_layers` divides the layers under the floors that
-- `pin_floors` returned, every node that `_boundary_nodes` names (the two ends of the ring and every stage
-- that holds a layer of either leaky range) is a trusted one.
pub pin_floors-assign_layers :
    (trust : ℕ → Bool) (caps layer_ms : ℕ → ℕ) (n_layers b_in b_out : ℕ) (order : List ℕ)
    (floors : ℕ → Option ℕ) (alloc : ℕ → ℕ)
    → Distinct order
    → pin_floors trust caps n_layers b_in b_out order ≡ some floors
    → assign_layers order n_layers caps layer_ms floors ≡ some alloc
    → All (λ n. trust n ≡ true) (boundary_nodes order alloc n_layers b_in b_out)
pin_floors-assign_layers trust caps layer_ms n_layers b_in b_out order floors alloc distinct pinned
      assigned =
    let valid = assign_layers-IsValid order n_layers caps layer_ms floors distinct alloc assigned in
    pinned_boundary trust alloc caps n_layers b_in b_out order floors pinned
      (All-zip_with order (λ n b c. b.0) valid.bounds valid.bounds) valid.total
