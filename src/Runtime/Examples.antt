-- ===== src/Runtime/Examples.antt =====
-- The theorems of the runtime at concrete inputs.
use obehy.Prelude.{
  ℕ, ◌+◌, ◌*◌, ◌^◌, ◌≤◌, ◌<◌, min, max, ◌≡◌, ◌≢◌, refl, ◌⊎◌, String, none, some, List, [], ◌∷◌,
  arith,
}
use obehy.Model.Facts.{Instant}
use obehy.Runtime.Poll.{Poll, Channel}
use obehy.Runtime.Scheduler.{backoff_interval, failures_after, Ticks, turn}
use obehy.Runtime.Backoff.{backoff_interval-bounds, blocked-backoff, turn-tick}
use obehy.Runtime.Demand.{BoardPolicy, ReadLog, plan_reads, budget}
use obehy.Prelude.{ltb, if◌then◌else◌}
use obehy.Prelude.Lists.{length}
use obehy.Model.Facts.{Date}
use obehy.Runtime.Guard.{GuardPolicy, gb, next_step, guard_disk, sorted_set}
use obehy.Runtime.Rests.{guard_disk-rests}
use obehy.Prelude.{◌-◌}
use obehy.Runtime.Bucket.{Rate, token, take, granted}
use obehy.Runtime.Limit.{InOrder, final, granted-bound}
use obehy.Runtime.Reads.{Plan, plan_reads-Plan, IsSlow, budget-bounds}

-- Polled every 10 s, at most 300 s apart after five failures.
abbrev channel : Channel
channel = record { interval_s = 10000000; backoff_after = 5; max_backoff_s = 300000000 }

abbrev refusal : Poll
refusal = record {
  requested_at = 0;
  received_at = 1;
  status = some 403;
  error = none;
  headers = [];
}

abbrev answer : Poll
answer = record { requested_at = 0; received_at = 1; status = some 200; error = none; headers = [] }

backoff_interval-bounds_example :
    (min channel.interval_s channel.max_backoff_s ≤ backoff_interval channel 7)
    × (backoff_interval channel 7 ≤ max channel.interval_s channel.max_backoff_s)
backoff_interval-bounds_example = backoff_interval-bounds channel 7

blocked-backoff_example :
    backoff_interval channel (failures_after channel 0 refusal) ≡ channel.max_backoff_s
blocked-backoff_example = blocked-backoff channel 0 refusal refl (omega arith) (omega arith)

-- An answer 35 s late.
abbrev ticks : Ticks
ticks = record { tick = 0; failures = 0 }

turn-tick_example :
    (backoff_interval channel (failures_after channel ticks.failures answer) ≡ channel.interval_s)
      × (35000000 < (turn channel ticks answer 35000000).tick)
      × ((turn channel ticks answer 35000000).tick ≤ 35000000 + channel.interval_s)
      × ((k : ℕ) × ((turn channel ticks answer 35000000).tick
            ≡ ticks.tick + k * channel.interval_s))
    ⊎ ((backoff_interval channel (failures_after channel ticks.failures answer)
          ≢ channel.interval_s)
        × ((turn channel ticks answer 35000000).tick
            ≡ 35000000 + backoff_interval channel (failures_after channel ticks.failures answer)))
turn-tick_example =
    turn-tick channel ticks answer 35000000 (omega arith) (omega arith) (omega arith)

-- The missed ticks at 10, 20 and 30 s are skipped.
skips : (turn channel ticks answer 35000000).tick ≡ 40000000
unfolding turn obehy.Runtime.Scheduler.next_tick obehy.Runtime.Scheduler.backoff_interval
    obehy.Runtime.Scheduler.failures_after obehy.Runtime.Poll.ok obehy.Runtime.Scheduler.on_grid
    obehy.Runtime.Scheduler.missed
skips = refl

abbrev boards : BoardPolicy
boards = record {
  early_min = 60;
  near_min = 20;
  near_refresh_s = 300;
  imminent_min = 5;
  imminent_refresh_s = 60;
  ceiling_per_min = 20;
  slowdown_s = 600;
}

abbrev unread_log : ReadLog
unread_log = record { last = []; dropped = 0 }

abbrev due_calls : List (String × List Instant)
due_calls = ("534149", 600000000 ∷ []) ∷ ("545475", 300000000 ∷ []) ∷ []

plan_reads-Plan_example :
    Plan 0 due_calls unread_log boards 1 (plan_reads 0 due_calls unread_log boards 1)
plan_reads-Plan_example = plan_reads-Plan 0 due_calls unread_log boards 1

-- The station of the soonest call is read, the other dropped.
reads :
    plan_reads 0 due_calls unread_log boards 1 ≡ ("545475" ∷ [], record { last = []; dropped = 1 })
unfolding plan_reads obehy.Prelude.Sort.sort_by obehy.Prelude.Dict.lookup
    obehy.Runtime.Demand.sooner
reads = refl

budget-bounds_example :
    (1 ≤ budget boards (some 5) 3)
    × (budget boards (some 5) 3 ≤ 20)
    × ((¬ IsSlow (some 5) 3 × (budget boards (some 5) 3 ≡ 20))
        ⊎ (IsSlow (some 5) 3
            × (20 ≤ budget boards (some 5) 3 + budget boards (some 5) 3 + 1)
            × ((budget boards (some 5) 3 ≡ 1)
                ⊎ (budget boards (some 5) 3 + budget boards (some 5) 3 ≤ 20))))
budget-bounds_example = budget-bounds boards (some 5) 3 (omega arith)

-- Half of the space that is wanted is free, until two days are left.
abbrev disk : List Date → List Date → ℕ
disk raw_days history_days =
    if ltb (length raw_days + length history_days) 3 then 20 * gb else 5 * gb

abbrev disk_policy : GuardPolicy
disk_policy = record { free_gb = 10; min_raw_days = 1; min_history_days = 1 }

abbrev stored : List Date × List Date
stored = (7 ∷ 5 ∷ 6 ∷ [], 5 ∷ [])

-- The raw days 5 and 6 are deleted, the oldest first.
guards : guard_disk disk disk_policy 5 stored ≡ (7 ∷ [], 5 ∷ [])
unfolding guard_disk next_step sorted_set
guards = refl

guard_disk-rests_example :
    let rest = guard_disk disk disk_policy (length stored.0 + length stored.1 + 1) stored in
    next_step (disk rest.0 rest.1) disk_policy rest.0 rest.1 ≡ none
guard_disk-rests_example = guard_disk-rests disk disk_policy stored

-- Sixty takes a minute, five at once.
abbrev lookups : Rate
lookups = record { per_minute = 60; burst = 5 }

abbrev asked : List ℕ
asked = 0 ∷ 0 ∷ 0 ∷ 0 ∷ 0 ∷ 1000000 ∷ []

-- The burst is granted, then nothing, then one more after a second.
grants : granted lookups (record { tokens = none; at = 0 }) (0 ∷ asked) ≡ 6
unfolding granted take obehy.Runtime.Bucket.filled
grants = refl

in_order : InOrder 0 asked
unfolding InOrder
in_order =
    (omega arith, (omega arith, (omega arith, (omega arith, (omega arith, (omega arith, tt))))))

granted-bound_example :
    granted lookups (record { tokens = some 0; at = 0 }) (0 ∷ asked) * token
    ≤ lookups.burst * token + (final 0 asked - 0) * lookups.per_minute
granted-bound_example = granted-bound lookups (record { tokens = some 0; at = 0 }) 0 asked in_order
