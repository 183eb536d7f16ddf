-- ===== src/Runtime/Scheduler.antt =====
-- The poll scheduler (src/obehy/realtime/runtime/scheduler.py): fixed-rate ticks, with backoff.
-- Durations are whole microseconds: the rounding of floats is left out.
use obehy.Prelude.{
  ℕ, ◌+◌, ◌-◌, ◌*◌, ◌/◌, ◌^◌, min, max, Bool, false, Option, none, some, ltb, leb, nat_beq,
  if◌then◌else◌, nat_eq,
}
use obehy.Runtime.Poll.{Poll, ok, Channel}

-- `BLOCKED`, `BLOCKED_STEPS`
abbrev pub blocked : ℕ
blocked = 403

abbrev pub blocked_steps : ℕ
blocked_steps = 32

unfoldable pub backoff_interval : Channel → ℕ → ℕ
backoff_interval c failures =
    if ltb failures c.backoff_after
    then c.interval_s
    else min c.max_backoff_s
        (max c.interval_s (c.interval_s * 2 ^ (failures - c.backoff_after + 1)))

is_blocked : Option ℕ → Bool
is_blocked none = false
is_blocked (some n) = nat_beq n blocked

-- The failures in a row after a poll; a 403 opens the circuit at once.
unfoldable pub failures_after : Channel → ℕ → Poll → ℕ
unfolding is_blocked
failures_after c failures poll =
    if ok poll
    then 0
    else if is_blocked poll.status
    then max (failures + 1) (c.backoff_after + blocked_steps)
    else failures + 1

-- `math.ceil(late / interval + 1e-9)`, exactly: (late * 10^9 + interval) / (interval * 10^9),
-- rounded up.
unfoldable pub missed : ℕ → ℕ → ℕ
missed late interval =
    (late * 1000000000 + interval + interval * 1000000000 - 1) / (interval * 1000000000)

-- The tick after `tick` on the grid; missed ticks are skipped.
unfoldable pub on_grid : ℕ → ℕ → ℕ → ℕ
on_grid tick interval now =
    let next = tick + interval in
    if leb next now then next + missed (now - next) interval * interval else next

unfoldable pub next_tick : Channel → ℕ → ℕ → ℕ → ℕ
next_tick c tick interval now =
    if nat_beq interval c.interval_s then on_grid tick interval now else now + interval

pub record Ticks : Type 0 where
  pub tick : ℕ
  pub failures : ℕ

-- One pass of the loop of `run_channel`: after a poll, at the time `now`.
unfoldable pub turn : Channel → Ticks → Poll → ℕ → Ticks
turn c t poll now =
    let failures = failures_after c t.failures poll in
    record { tick = next_tick c t.tick (backoff_interval c failures) now; failures = failures }

-- `max(0.0, next_tick - now)`: how long the loop then waits.
unfoldable pub waits : Ticks → ℕ → ℕ
waits t now = t.tick - now
