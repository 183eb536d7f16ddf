-- ===== src/Times.antt =====
-- The times that the core converts (src/obehy/realtime/times.py). A date is its ordinal
-- (`date.toordinal`). The rules of the zone Europe/Prague are data of the system's time zone
-- database: the reading of a wall-clock time and the local date of a UTC hour are parameters.
use obehy.Prelude.{ℕ, ◌+◌, ◌-◌, ◌/◌, ◌*◌, ◌%◌, String, List, [], ◌∷◌}
use obehy.Model.Facts.{Instant, Date, minutes}

pub record Zone : Type 0 where
  -- `replace(tzinfo=PRAGUE, fold=0)` of a date and the seconds of its day, as an instant.
  pub wall : Date → ℕ → Instant
  -- `astimezone(PRAGUE)`: the local date of an instant, and its time of day.
  pub read : Instant → Date × ℕ
  -- `isoformat` of an instant.
  pub isoformat : Instant → String

pub record ServiceTime : Type 0 where
  pub service_date : Date
  pub seconds : ℕ

module _ (zone : Zone) where
  -- `_schedule_instant`: the seconds run on from the midnight of the date over later days.
  unfoldable pub schedule_instant : Date → ℕ → Instant
  schedule_instant day s = zone.wall (day + s / 86400) (s % 86400)

  -- `ServiceTime.instant`
  unfoldable pub instant : ServiceTime → Instant
  unfolding schedule_instant
  instant t = schedule_instant t.service_date t.seconds

  -- `_local_date`: offsets are whole hours, so the date is that of the UTC hour.
  unfoldable pub local_date : Instant → Date
  local_date value = (zone.read ((value / minutes 60) * minutes 60)).0

  -- Local yesterday, today and tomorrow.
  unfoldable pub candidate_service_dates : Instant → List Date
  unfolding local_date
  candidate_service_dates value =
      let today = local_date value in (today - 1) ∷ today ∷ (today + 1) ∷ []
