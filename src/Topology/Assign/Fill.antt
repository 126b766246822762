-- ===== src/Topology/Assign/Fill.antt =====
-- The loop of `assign_layers` (shard/shard/topology.py): what it gives to whom.
use mathlib.Core.Path.{fun_ext}
use shard_glm_image.Base.{
  ℕ, ◌+◌, ◌-◌, ◌*◌, ◌≤◌, ◌≡◌, ◌≢◌, refl, sym, ap, subst, List, [], ◌∷◌, arith, All, All-zip_with,
  sum_of, sum_of_mono, min,
}
use shard_glm_image.Base.Sort.{Distinct, Ascending}
use shard_glm_image.Base.Table.{update, update_self, update_ne, sum_of_congr}
use shard_glm_image.Topology.Assign.{fill}

-- One step of the loop: what the node gets, and what is left.
abbrev share : (ℕ → ℕ) → ℕ → (ℕ → ℕ) → ℕ → ℕ
share caps n alloc rem = min (caps n - alloc n) rem

abbrev given : (ℕ → ℕ) → ℕ → (ℕ → ℕ) → ℕ → ℕ → ℕ
given caps n alloc rem = update alloc n (alloc n + share caps n alloc rem)

given-zero :
    (caps : ℕ → ℕ) (n : ℕ) (alloc : ℕ → ℕ) (rem : ℕ)
    → share caps n alloc rem ≡ 0
    → given caps n alloc rem ≡ alloc
unfolding update
given-zero caps n alloc rem h = fun_ext (λ k. same k)
  where
    same : (k : ℕ) → given caps n alloc rem k ≡ alloc k
    same k = ground arith

-- The cost of a division of the layers, at `ms` per layer of each node.
abbrev pub cost_of : (ℕ → ℕ) → (ℕ → ℕ) → List ℕ → ℕ
cost_of ms alloc = sum_of (λ n. alloc n * ms n)

head_cost :
    (a y m low s d d' c cy : ℕ)
    → d' + y ≡ s + d + a
    → low ≤ m
    → c + d' * m ≤ cy
    → (a + s) * m + c + d * low ≤ y * m + cy
head_cost a y m low s d d' c cy e l h = grind (arith, ap (λ (t : ℕ). t * m) e)

module _ (caps : ℕ → ℕ) where
  fill-zero : (ns : List ℕ) (alloc : ℕ → ℕ) → fill caps ns alloc 0 ≡ (alloc, 0)
  unfolding fill
  fill-zero [] alloc = refl
  fill-zero (n ∷ ns) alloc = ground arith

  -- The early exit and the test of `take` change nothing.
  fill-cons :
      (n : ℕ) (ns : List ℕ) (alloc : ℕ → ℕ) (rem : ℕ)
      → fill caps (n ∷ ns) alloc rem
        ≡ fill caps ns (given caps n alloc rem) (rem - share caps n alloc rem)
  unfolding fill
  fill-cons n ns alloc rem = ground (
    arith,
    given-zero caps n alloc rem,
    fill-zero ns (given caps n alloc rem),
    fill-zero ns alloc,
  )

  pub fill-other :
      (ns : List ℕ) (alloc : ℕ → ℕ) (rem k : ℕ)
      → All (λ n. n ≢ k) ns
      → (fill caps ns alloc rem).0 k ≡ alloc k
  unfolding fill
  fill-other [] alloc rem k h = refl
  fill-other (n ∷ ns) alloc rem k h =
      rw
        (
          fill-cons n ns alloc rem,
          fill-other ns (given caps n alloc rem) (rem - share caps n alloc rem) k h.1,
        )
        (update_ne alloc n _ k (λ e. h.0 (sym e)))

  given_self :
      (n : ℕ) (alloc : ℕ → ℕ) (rem : ℕ)
      → given caps n alloc rem n ≡ alloc n + share caps n alloc rem
  given_self n alloc rem = update_self alloc n _

  given-others :
      (n : ℕ) (alloc : ℕ → ℕ) (rem : ℕ) (ns : List ℕ)
      → All (λ k. k ≢ n) ns
      → All (λ k. given caps n alloc rem k ≡ alloc k) ns
  given-others n alloc rem [] h = tt
  given-others n alloc rem (k ∷ ns) h = (update_ne alloc n _ k h.0, given-others n alloc rem ns h.1)

  -- After the loop the head has what its own step gave it.
  fill-head :
      (n : ℕ) (ns : List ℕ) (alloc : ℕ → ℕ) (rem : ℕ)
      → All (λ k. k ≢ n) ns
      → (fill caps (n ∷ ns) alloc rem).0 n ≡ alloc n + share caps n alloc rem
  fill-head n ns alloc rem h =
      rw
        (
          fill-cons n ns alloc rem,
          fill-other ns (given caps n alloc rem) (rem - share caps n alloc rem) n h,
        )
        (given_self n alloc rem)

  -- Nothing is lost: what the nodes gain is what the remainder loses.
  pub fill-sum :
      (ns : List ℕ) (alloc : ℕ → ℕ) (rem : ℕ)
      → Distinct ns
      → sum_of (fill caps ns alloc rem).0 ns + (fill caps ns alloc rem).1 ≡ sum_of alloc ns + rem
  unfolding fill
  fill-sum [] alloc rem d = refl
  fill-sum (n ∷ ns) alloc rem d =
      let a = given caps n alloc rem in
      let left = rem - share caps n alloc rem in
      subst (λ (p : (ℕ → ℕ) × ℕ). sum_of p.0 (n ∷ ns) + p.1 ≡ sum_of alloc (n ∷ ns) + rem)
        (sym (fill-cons n ns alloc rem))
        (omega (
          arith,
          fill-sum ns a left d.1,
          fill-other ns a left n d.0,
          given_self n alloc rem,
          sum_of_congr a alloc ns (given-others n alloc rem ns d.0),
        ))

  given-le :
      (n : ℕ) (alloc : ℕ → ℕ) (rem : ℕ) (ns : List ℕ)
      → All (λ k. k ≢ n) ns
      → All (λ k. alloc k ≤ caps k) ns
      → All (λ k. given caps n alloc rem k ≤ caps k) ns
  given-le n alloc rem ns d h =
      All-zip_with ns (λ k e le. omega arith) (given-others n alloc rem ns d) h

  -- A node gains, and stays within its capacity.
  pub fill-bounds :
      (ns : List ℕ) (alloc : ℕ → ℕ) (rem : ℕ)
      → Distinct ns
      → All (λ n. alloc n ≤ caps n) ns
      → All
          (λ n. (alloc n ≤ (fill caps ns alloc rem).0 n) × ((fill caps ns alloc rem).0 n ≤ caps n))
          ns
  fill-bounds [] alloc rem d h = tt
  fill-bounds (n ∷ ns) alloc rem d h =
      let a = given caps n alloc rem in
      let left = rem - share caps n alloc rem in
      let before = given-others n alloc rem ns d.0 in
      let later = fill-bounds ns a left d.1 (given-le n alloc rem ns d.0 h.1) in
      (
        (
          omega (arith, fill-head n ns alloc rem d.0),
          omega (arith, fill-head n ns alloc rem d.0, h.0),
        ),
        subst (λ (p : (ℕ → ℕ) × ℕ). All (λ k. (alloc k ≤ p.0 k) × (p.0 k ≤ caps k)) ns)
            (sym (fill-cons n ns alloc rem)) (All-zip_with ns (λ k e b. omega arith) before later),
      )

  -- The loop ends with nothing left if the capacities allow it.
  pub fill-done :
      (ns : List ℕ) (alloc : ℕ → ℕ) (rem : ℕ)
      → Distinct ns
      → All (λ n. alloc n ≤ caps n) ns
      → sum_of alloc ns + rem ≤ sum_of caps ns
      → (fill caps ns alloc rem).1 ≡ 0
  unfolding fill
  fill-done [] alloc rem d h room = omega arith
  fill-done (n ∷ ns) alloc rem d h room =
      let same = sum_of_congr (given caps n alloc rem) alloc ns (given-others n alloc rem ns d.0) in
      rw (fill-cons n ns alloc rem) (
        fill-done ns _ _ d.1 (given-le n alloc rem ns d.0 h.1)
          (omega (arith, same, h.0, sum_of_mono alloc caps ns h.1)))

  -- Among nodes in ascending order of `ms`, no division `y` that starts from `alloc`, stays within
  -- the capacities and gives out `d` more layers costs less, each extra layer counted at `low`.
  pub fill-optimal :
      (ms : ℕ → ℕ) (ns : List ℕ) (alloc : ℕ → ℕ) (rem d low : ℕ) (y : ℕ → ℕ)
      → Distinct ns
      → Ascending ms ns
      → All (λ n. low ≤ ms n) ns
      → All (λ n. (alloc n ≤ y n) × (y n ≤ caps n)) ns
      → sum_of y ns ≡ sum_of alloc ns + rem + d
      → cost_of ms (fill caps ns alloc rem).0 ns + d * low ≤ cost_of ms y ns
  unfolding fill
  fill-optimal ms [] alloc rem d low y dis asc lows ok_y total = grind arith
  fill-optimal ms (n ∷ ns) alloc rem d low y dis asc lows ok_y total =
      let a = given caps n alloc rem in
      let s = share caps n alloc rem in
      let before = given-others n alloc rem ns dis.0 in
      let at_least = sum_of_mono alloc y ns (All-zip_with ns (λ k p q. p.0) ok_y.1 ok_y.1) in
      let rest =
        fill-optimal ms ns a (rem - s) (s + d - (y n - alloc n)) (ms n) y dis.1 asc.1 asc.0
          (All-zip_with ns (λ k e b. omega arith) before ok_y.1)
          (omega (arith, sum_of_congr a alloc ns before, total, ok_y.0, at_least)) in
      subst (λ (p : (ℕ → ℕ) × ℕ). cost_of ms p.0 (n ∷ ns) + d * low ≤ cost_of ms y (n ∷ ns))
        (sym (fill-cons n ns alloc rem))
        (rw (fill-other ns a (rem - s) n dis.0, given_self n alloc rem)
          (head_cost (alloc n) (y n) (ms n) low s d (s + d - (y n - alloc n)) _ _
            (omega (arith, total, ok_y.0, at_least)) lows.0 rest))
