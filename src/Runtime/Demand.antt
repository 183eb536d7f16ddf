-- ===== src/Runtime/Demand.antt =====
-- Demand polling (src/obehy/realtime/runtime/demand.py): the stations to read in a minute, and
-- the budget.
use obehy.Prelude.{
  ℕ, ◌+◌, ◌-◌, ◌/◌, max, String, Bool, true, false, not, ◌&&◌, ◌||◌, Option, none, some, List, [],
  ◌∷◌, map, ltb, leb, if◌then◌else◌, string_eq,
}
use obehy.Prelude.Lists.{length, take, keep_if}
use obehy.Prelude.Sort.{sort_by}
use obehy.Prelude.Dict.{Dict, lookup}
use obehy.Model.Facts.{Instant, minutes, seconds}
use obehy.Prelude.Texts.{str_lt}

pub record BoardPolicy : Type 0 where
  pub early_min : ℕ
  pub near_min : ℕ
  pub near_refresh_s : ℕ
  pub imminent_min : ℕ
  pub imminent_refresh_s : ℕ
  pub ceiling_per_min : ℕ
  pub slowdown_s : ℕ

pub record ReadLog : Type 0 where
  pub last : Dict String Instant
  pub dropped : ℕ

-- `(not unread, soonest, station)`
pub record Wanted : Type 0 where
  pub read : Bool
  pub soonest : Instant
  pub station : String

module _ (now : Instant) (log : ReadLog) (policy : BoardPolicy) where
  -- `last is None or last < soonest - early`
  unfoldable pub unread : Option Instant → Instant → Bool
  unread none soonest = true
  unread (some last) soonest = ltb (last + minutes policy.early_min) soonest

  unfoldable pub stale : Option Instant → Instant → Bool
  stale none soonest = false
  stale (some last) soonest =
      leb (soonest - now) (minutes policy.imminent_min)
        && ltb (seconds policy.imminent_refresh_s) (now - last)
      || leb (soonest - now) (minutes policy.near_min)
        && ltb (seconds policy.near_refresh_s) (now - last)

  want : String → List Instant → Option Wanted
  unfolding unread stale
  want station [] = none
  want station (soonest ∷ _) =
      let last = lookup station log.last in
      if ltb (minutes policy.early_min) (soonest - now)
      then none
      else if unread last soonest || stale last soonest
      then some (record { read = not (unread last soonest); soonest = soonest; station = station })
      else none

  -- The loop over the due calls: the stations that are wanted.
  unfoldable pub wanted : List (String × List Instant) → List Wanted
  unfolding want
  wanted [] = []
  wanted ((station, times) ∷ due) =
      let rest = wanted due in
      elim (want station (keep_if (leb now) times)) [ none ↦ rest | some w ↦ w ∷ rest ]

-- The order of the tuples: never-read stations first, the soonest due first, then by station.
unfoldable pub sooner : Wanted → Wanted → Bool
sooner a b =
    if not a.read && b.read
    then true
    else if a.read && not b.read
    then false
    else if ltb a.soonest b.soonest
    then true
    else if ltb b.soonest a.soonest
    then false
    else not (str_lt b.station a.station)

-- `plan_reads`: the stations to read, and the log with the demand that was dropped.
unfoldable pub plan_reads :
    Instant → List (String × List Instant) → ReadLog → BoardPolicy → ℕ → List String × ReadLog
unfolding wanted
plan_reads now due log policy budget =
    let all = sort_by sooner (wanted now log policy due) in
    (
      map (λ (w : Wanted). w.station) (take budget all),
      record log { dropped = log.dropped + (length all - budget) },
    )

-- `Pace.budget`
unfoldable pub budget : BoardPolicy → Option Instant → Instant → ℕ
budget policy none now = policy.ceiling_per_min
budget policy (some until) now =
    if ltb now until then max 1 (policy.ceiling_per_min / 2) else policy.ceiling_per_min
