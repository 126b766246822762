-- ===== src/Tests/Stalls.antt =====
-- A job that stalls, and one that does not (shard/shard/coordinate.py).
use shard_glm_image.Base.{ℕ, ◌≤◌, ◌+◌, ◌≡◌, refl, none, some, arith, false}
use shard_glm_image.Base.Int.{pos}
use shard_glm_image.Coordinate.Watchdog.{
  positive, or_default, stall_budget, cap_budget, firstack_budget, Watchdog, least, poll_interval,
  budget, arm, tick, overdue, fires, watch,
}
use shard_glm_image.Coordinate.Watchdog.Kills.{Killed, watch-arm, fires-tick}

program : Unit {0}
unfolding positive or_default stall_budget cap_budget firstack_budget least poll_interval budget arm
    tick overdue fires watch
program = tt

-- The default budgets of a job with a timeout of 300 s.
defaults :
    (stall_budget none 300000 ≡ some 360000)
    × (firstack_budget none (stall_budget none 300000) ≡ some 90000)
    × (firstack_budget none (stall_budget (some (pos 0)) 300000) ≡ none)
    × (poll_interval (some 360000) (some 90000) ≡ some 2000)
unfolding program
defaults = (refl, refl, refl, refl)

abbrev idle : Watchdog
idle = record { stall = some 6000; first = some 3000; last = 0; job = none; moved = false }

killed : watch (arm idle 100 7) 100 750 6 ≡ some 3850
unfolding program
killed = refl

ticked : watch (tick (arm idle 100 7) 500) 100 750 12 ≡ some 6850
unfolding program
ticked = refl

watch-arm_example : Killed (watch (arm idle 100 7) 100 750 6) 100 3000 750 × (750 ≤ 2000)
unfolding program
watch-arm_example = watch-arm idle 100 7 2999 750 6 refl refl (omega arith)

fires-tick_example : fires (tick (arm idle 100 7) 500) 6500 ≡ false
unfolding arm
fires-tick_example = fires-tick (arm idle 100 7) 500 6500 (λ b e. within b e)
  where
    within : (b : ℕ) → some 6000 ≡ some b → 6500 ≤ 500 + b
    within b e = ground arith
