-- ===== src/Coordinate/Watchdog.antt =====
-- shard/shard/coordinate.py: the budgets and the stall watchdog. Times are whole milliseconds.
pub mod Kills
use shard_glm_image.Base.{
  ℕ, zero, suc, ◌+◌, ◌-◌, ◌/◌, if◌then◌else◌, Option, none, some, List, [], ◌∷◌, Bool, true, false,
  not, ◌&&◌, ◌||◌, String, ltb, min, max,
}
use shard_glm_image.Base.Int.{ℤ, pos, negsuc}

-- `v if v > 0 else None`
unfoldable pub positive : ℤ → Option ℕ
positive (pos (suc n)) = some (suc n)
positive (pos zero) = none
positive (negsuc n) = none

-- `float(raw) if raw not in (None, "") else default`, and the default when `float` refuses: `parse`
-- is `float`, of the variable's text.
unfoldable pub or_default : Option ℤ → ℕ → ℤ
or_default (some v) default = v
or_default none default = pos default

-- `_stall_budget`: `raw` is M25_JOB_STALL_S, `none` if it is unset, empty or no number.
unfoldable pub stall_budget : Option ℤ → ℕ → Option ℕ
unfolding positive or_default
stall_budget raw timeout = positive (or_default raw (timeout + 60000))

unfoldable pub cap_budget : Option ℕ → ℕ → Option ℕ
cap_budget none stall = none
cap_budget (some v) stall = some (min v stall)

-- `_firstack_budget`: `raw` is M25_JOB_FIRSTACK_S.
unfoldable pub firstack_budget : Option ℤ → Option ℕ → Option ℕ
unfolding positive or_default cap_budget
firstack_budget raw none = none
firstack_budget raw (some zero) = none
firstack_budget raw (some (suc s)) = cap_budget (positive (or_default raw 90000)) (suc s)

pub record Watchdog : Type 0 where
  pub stall : Option ℕ
  pub first : Option ℕ
  pub last : ℕ
  pub job : Option ℕ
  pub moved : Bool

-- `if budget` and `if not budget`: 0 is no budget.
abbrev pub truthy : Option ℕ → Bool
truthy (some (suc n)) = true
truthy (some zero) = false
truthy none = false

-- `[b for b in (stall_s, first_s) if b]`, the least of them.
unfoldable pub least : Option ℕ → Option ℕ → Option ℕ
least (some (suc a)) (some (suc b)) = some (min (suc a) (suc b))
least (some (suc a)) other = some (suc a)
least other (some (suc b)) = some (suc b)
least other other' = none

-- `_poll`, if a thread is started at all.
unfoldable pub poll_interval : Option ℕ → Option ℕ → Option ℕ
unfolding least
poll_interval stall first = elim (least stall first) [
  | none ↦ none
  | some b ↦ some (min (max (b / 4) 50) 2000)
]

unfoldable pub budget : Watchdog → Option ℕ
budget w = if w.moved || not (truthy w.first) then w.stall else w.first

unfoldable pub arm : Watchdog → ℕ → ℕ → Watchdog
arm w now id = record w { last = now; moved = false; job = some id }

unfoldable pub tick : Watchdog → ℕ → Watchdog
tick w now = record w { last = now; moved = true }

unfoldable pub disarm : Watchdog → Watchdog
disarm w = record w { job = none }

unfoldable pub overdue : Option ℕ → ℕ → Bool
overdue (some (suc b)) elapsed = ltb (suc b) elapsed
overdue (some zero) elapsed = false
overdue none elapsed = false

-- The test of `_run` at a poll.
unfoldable pub fires : Watchdog → ℕ → Bool
unfolding overdue budget
fires w now = elim w.job [ none ↦ false | some id ↦ overdue (budget w) (now - w.last) ]

-- The loop of `_run` over a watchdog that nothing moves, with the number of polls as fuel: the time
-- at which it kills the process.
unfoldable pub watch : Watchdog → ℕ → ℕ → ℕ → Option ℕ
unfolding fires
watch w now interval zero = none
watch w now interval (suc polls) =
    let rest = watch w (now + interval) interval polls in
    if fires w (now + interval) then some (now + interval) else rest
