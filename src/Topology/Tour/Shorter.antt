-- ===== src/Topology/Tour/Shorter.antt =====
-- The 2-opt of shard/shard/topology.py never lengthens a tour, and it ends.
use shard_glm_image.Base.{
  ℕ, zero, suc, ◌≤◌, ◌<◌, ◌≡◌, inl, inr, refl, sym, subst, Bool, true, false, Bool-cases, List, [],
  ◌∷◌, ltb, All, arith,
}
use shard_glm_image.Topology.Head.{loop_cost}
use shard_glm_image.Topology.Tour.{flipped, sweep, two_opt, again, opted}

module _ (L : ℕ → ℕ → ℕ) (c_out c_in : ℕ → ℕ) where
  abbrev pub cost : List ℕ → ℕ
  cost tour = loop_cost L c_out c_in tour

  -- No flip of the pairs is shorter.
  abbrev pub Stable : List (ℕ × ℕ) → List ℕ → Type 0
  Stable pairs tour = All (λ ((i, j) : ℕ × ℕ). cost tour ≤ cost (flipped i j tour)) pairs

  -- What a round does: nothing, when no flip is shorter, or it finds a shorter tour.
  abbrev Swept : List (ℕ × ℕ) → List ℕ → List ℕ × Bool → Type 0
  Swept pairs tour (after, true) = cost after < cost tour
  Swept pairs tour (after, false) = (after ≡ tour) × Stable pairs tour

  sweep_shorter :
      (i j : ℕ) (pairs : List (ℕ × ℕ)) (tour : List ℕ) (improved : Bool)
      → ltb (cost (flipped i j tour)) (cost tour) ≡ true
      → sweep L c_out c_in ((i, j) ∷ pairs) tour improved
        ≡ sweep L c_out c_in pairs (flipped i j tour) true
  unfolding sweep
  sweep_shorter i j pairs tour improved y = rw y refl

  sweep_kept :
      (i j : ℕ) (pairs : List (ℕ × ℕ)) (tour : List ℕ) (improved : Bool)
      → ltb (cost (flipped i j tour)) (cost tour) ≡ false
      → sweep L c_out c_in ((i, j) ∷ pairs) tour improved ≡ sweep L c_out c_in pairs tour improved
  unfolding sweep
  sweep_kept i j pairs tour improved n = rw n refl

  -- Of a round that has improved the tour already.
  abbrev Improved : List ℕ → List ℕ × Bool → Type 0
  Improved tour (after, improved) = (cost after ≤ cost tour) × (improved ≡ true)

  sweep-Improved :
      (pairs : List (ℕ × ℕ)) (tour : List ℕ) → Improved tour (sweep L c_out c_in pairs tour true)
  unfolding sweep
  sweep-Improved [] tour = (omega arith, refl)
  sweep-Improved ((i, j) ∷ pairs) tour =
      elim (Bool-cases (ltb (cost (flipped i j tour)) (cost tour))) [
        | inl y ↦
            let (less, done) = sweep-Improved pairs (flipped i j tour) in
            subst (Improved tour) (sym (sweep_shorter i j pairs tour true y))
              (ground (arith, less, y), done)
        | inr n ↦
            subst (Improved tour) (sym (sweep_kept i j pairs tour true n))
              (sweep-Improved pairs tour)
      ]

  Improved-Swept :
      (i j : ℕ) (pairs : List (ℕ × ℕ)) (tour : List ℕ) (after : List ℕ) (improved : Bool)
      → cost (flipped i j tour) < cost tour
      → Improved (flipped i j tour) (after, improved)
      → Swept ((i, j) ∷ pairs) tour (after, improved)
  Improved-Swept i j pairs tour after true less (short, done) = omega (arith, less, short)
  Improved-Swept i j pairs tour after false less (short, done) = absurd (cc done)

  kept-Swept :
      (i j : ℕ) (pairs : List (ℕ × ℕ)) (tour : List ℕ) (after : List ℕ) (improved : Bool)
      → cost tour ≤ cost (flipped i j tour)
      → Swept pairs tour (after, improved)
      → Swept ((i, j) ∷ pairs) tour (after, improved)
  kept-Swept i j pairs tour after true short h = h
  kept-Swept i j pairs tour after false short (same, stable) = (same, (short, stable))

  sweep-Swept :
      (pairs : List (ℕ × ℕ)) (tour : List ℕ)
      → Swept pairs tour (sweep L c_out c_in pairs tour false)
  unfolding sweep
  sweep-Swept [] tour = (refl, tt)
  sweep-Swept ((i, j) ∷ pairs) tour =
      elim (Bool-cases (ltb (cost (flipped i j tour)) (cost tour))) [
        | inl y ↦
            let (after, improved) = sweep L c_out c_in pairs (flipped i j tour) true in
            subst (Swept ((i, j) ∷ pairs) tour) (sym (sweep_shorter i j pairs tour false y)) (
              Improved-Swept i j pairs tour after improved (ground (arith, y))
                (sweep-Improved pairs (flipped i j tour)))
        | inr n ↦
            let (after, improved) = sweep L c_out c_in pairs tour false in
            subst (Swept ((i, j) ∷ pairs) tour) (sym (sweep_kept i j pairs tour false n)) (
              kept-Swept i j pairs tour after improved (ground (arith, n)) (sweep-Swept pairs tour))
      ]

  -- A round and the rounds after it.
  two_opt-Stable :
      (pairs : List (ℕ × ℕ)) (fuel : ℕ) (tour : List ℕ)
      → cost tour < fuel
      → Stable pairs (two_opt L c_out c_in pairs fuel tour)
        × (cost (two_opt L c_out c_in pairs fuel tour) ≤ cost tour)
  unfolding two_opt
  two_opt-Stable pairs zero tour enough = absurd (omega arith)
  two_opt-Stable pairs (suc fuel) tour enough =
      let (after, improved) = sweep L c_out c_in pairs tour false in
      finished (two_opt-Stable pairs fuel) after improved (sweep-Swept pairs tour)
    where
      finished :
          ((t : List ℕ)
            → cost t < fuel
            → Stable pairs (two_opt L c_out c_in pairs fuel t)
              × (cost (two_opt L c_out c_in pairs fuel t) ≤ cost t))
          → (after : List ℕ) (improved : Bool) → Swept pairs tour (after, improved)
          → Stable pairs (again L c_out c_in (two_opt L c_out c_in pairs fuel) (after, improved))
            × (cost (again L c_out c_in (two_opt L c_out c_in pairs fuel) (after, improved))
                ≤ cost tour)
      finished goes_on after true less =
          let (stable, short) = goes_on after (omega (arith, less, enough)) in
          (stable, omega (arith, less, short))
      finished goes_on after false (same, stable) =
          (subst (Stable pairs) (sym same) stable, ground (arith, same))

  -- The 2-opt of a tour ends, its cost being enough rounds: no flip of a segment makes the tour that it returns shorter,
  -- which is no longer than the one it was given.
  pub opted-Stable :
      (pairs : List (ℕ × ℕ)) (tour : List ℕ)
      → Stable pairs (opted L c_out c_in pairs tour)
        × (cost (opted L c_out c_in pairs tour) ≤ cost tour)
  unfolding opted
  opted-Stable pairs tour = two_opt-Stable pairs (suc (cost tour)) tour (omega arith)

  -- What the flips of the pairs keep, the 2-opt keeps.
  abbrev pub Keeps : (List ℕ → Type 0) → List (ℕ × ℕ) → Type 0
  Keeps P pairs = All (λ ((i, j) : ℕ × ℕ). (tour : List ℕ) → P tour → P (flipped i j tour)) pairs

  sweep_keeps :
      (P : List ℕ → Type 0) (pairs : List (ℕ × ℕ)) (tour : List ℕ) (improved : Bool)
      → Keeps P pairs
      → P tour
      → P (sweep L c_out c_in pairs tour improved).0
  unfolding sweep
  sweep_keeps P [] tour improved steps p = p
  sweep_keeps P ((i, j) ∷ pairs) tour improved (step, steps) p =
      elim (Bool-cases (ltb (cost (flipped i j tour)) (cost tour))) [
        | inl y ↦
            subst (λ ((t, b) : List ℕ × Bool). P t) (sym (sweep_shorter i j pairs tour improved y))
              (sweep_keeps P pairs (flipped i j tour) true steps (step tour p))
        | inr n ↦
            subst (λ ((t, b) : List ℕ × Bool). P t) (sym (sweep_kept i j pairs tour improved n))
              (sweep_keeps P pairs tour improved steps p)
      ]

  two_opt_keeps :
      (P : List ℕ → Type 0) (pairs : List (ℕ × ℕ)) (fuel : ℕ) (tour : List ℕ)
      → Keeps P pairs
      → P tour
      → P (two_opt L c_out c_in pairs fuel tour)
  unfolding two_opt
  two_opt_keeps P pairs zero tour steps p = p
  two_opt_keeps P pairs (suc fuel) tour steps p =
      let (after, improved) = sweep L c_out c_in pairs tour false in
      finished (λ t. two_opt_keeps P pairs fuel t steps) after improved
        (sweep_keeps P pairs tour false steps p)
    where
      finished :
          ((t : List ℕ) → P t → P (two_opt L c_out c_in pairs fuel t))
          → (after : List ℕ) (improved : Bool) → P after
          → P (again L c_out c_in (two_opt L c_out c_in pairs fuel) (after, improved))
      finished goes_on after true q = goes_on after q
      finished goes_on after false q = q

  pub opted_keeps :
      (P : List ℕ → Type 0) (pairs : List (ℕ × ℕ)) (tour : List ℕ)
      → Keeps P pairs
      → P tour
      → P (opted L c_out c_in pairs tour)
  unfolding opted
  opted_keeps P pairs tour steps p = two_opt_keeps P pairs (suc (cost tour)) tour steps p
