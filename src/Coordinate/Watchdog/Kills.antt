-- ===== src/Coordinate/Watchdog/Kills.antt =====
-- When the stall watchdog kills the process, and when it does not (shard/shard/coordinate.py).
use shard_glm_image.Base.{
  ℕ, zero, suc, ◌+◌, ◌-◌, ◌*◌, ◌≤◌, ◌<◌, ◌≡◌, refl, Option, none, some, false, arith, Bool-cases,
  inl, inr, ltb,
}
use shard_glm_image.Base.Int.{ℤ, pos, negsuc}
use shard_glm_image.Coordinate.Watchdog.{
  positive, or_default, cap_budget, firstack_budget, Watchdog, poll_interval, budget, arm, tick,
  overdue, fires, watch,
}

abbrev pub IsWithin : Option ℕ → Option ℕ → Type 0
IsWithin none stall = Unit
IsWithin (some b) none = ⊥
IsWithin (some b) (some s) = (0 < b) × (b ≤ s)

cap_budget-IsWithin : (v : ℤ) (s : ℕ) → IsWithin (cap_budget (positive v) (suc s)) (some (suc s))
unfolding cap_budget positive
cap_budget-IsWithin (pos (suc n)) s = ground arith
cap_budget-IsWithin (pos zero) s = tt
cap_budget-IsWithin (negsuc n) s = tt

-- A budget for the first reply is positive and at most the stall budget, and there is none when the
-- stall budget is off.
pub firstack_budget-IsWithin :
    (raw : Option ℤ) (stall : Option ℕ) → IsWithin (firstack_budget raw stall) stall
unfolding firstack_budget
firstack_budget-IsWithin raw none = tt
firstack_budget-IsWithin raw (some zero) = tt
firstack_budget-IsWithin raw (some (suc s)) = cap_budget-IsWithin (or_default raw 90000) s

-- The time of a kill of a job whose last sign of life is at `last`, under a budget of `b` ms.
abbrev pub Killed : Option ℕ → ℕ → ℕ → ℕ → Type 0
Killed killed last b interval =
    (t : ℕ) × (killed ≡ some t) × (last + b < t) × (t ≤ last + b + interval)

fires-lem :
    (w : Watchdog) (id b now : ℕ)
    → w.job ≡ some id
    → budget w ≡ some (suc b)
    → fires w now ≡ ltb (suc b) (now - w.last)
unfolding fires overdue
fires-lem w id b now j h = ground (arith, j, h)

watch-Killed :
    (w : Watchdog) (id b now interval polls : ℕ)
    → w.job ≡ some id
    → budget w ≡ some (suc b)
    → w.last ≤ now
    → now ≤ w.last + suc b
    → w.last + suc b < now + polls * interval
    → Killed (watch w now interval polls) w.last (suc b) interval
unfolding watch
watch-Killed w id b now interval zero j h l u e = absurd (omega arith)
watch-Killed w id b now interval (suc polls) j h l u e =
    let fired = fires-lem w id b (now + interval) j h in
    elim (Bool-cases (ltb (suc b) (now + interval - w.last))) [
      | inl y ↦ (now + interval, rw (fired, y) refl, ground (arith, y), omega arith)
      | inr n ↦
          let (t, r, p, q) =
            watch-Killed w id b (now + interval) interval polls j h (omega arith)
              (ground (arith, n, l)) (omega arith) in
          (t, rw (fired, n) r, p, q)
    ]

poll_interval-bounds :
    (stall first : Option ℕ) (interval : ℕ)
    → poll_interval stall first ≡ some interval
    → (50 ≤ interval) × (interval ≤ 2000)
unfolding poll_interval
poll_interval-bounds stall first interval h = ground arith

-- A job that is armed and of which nothing is heard for longer than its budget: if there are polls
-- enough to pass the budget, the process is killed, later than the budget and at most one poll after
-- it, and a poll comes at most 2 s after the last.
pub watch-arm :
    (w : Watchdog) (now id b interval polls : ℕ)
    → budget (arm w now id) ≡ some (suc b)
    → poll_interval w.stall w.first ≡ some interval
    → suc b < polls * interval
    → Killed (watch (arm w now id) now interval polls) now (suc b) interval × (interval ≤ 2000)
unfolding arm
watch-arm w now id b interval polls h i e = (
  watch-Killed (arm w now id) id b now interval polls refl h (omega arith) (omega arith)
      (omega arith),
  (poll_interval-bounds w.stall w.first interval i).1,
)

overdue-within :
    (stall : Option ℕ) (s now : ℕ)
    → ((b : ℕ) → stall ≡ some b → now ≤ s + b)
    → overdue stall (now - s) ≡ false
unfolding overdue
overdue-within none s now h = refl
overdue-within (some zero) s now h = refl
overdue-within (some (suc b)) s now h = ground (arith, h (suc b) refl)

-- A reply or a commit restarts the clock: until the whole stall budget has passed since, no poll
-- kills the process, whatever the budget for the first reply is.
pub fires-tick :
    (w : Watchdog) (s now : ℕ)
    → ((b : ℕ) → w.stall ≡ some b → now ≤ s + b)
    → fires (tick w s) now ≡ false
unfolding fires tick budget
fires-tick w s now h = ground (arith, overdue-within w.stall s now h)
