-- ===== src/Runtime/Guard.antt =====
-- The disk guard: `next_step` of src/obehy/realtime/disk_guard.py, and the loop of `hourly` in
-- jobs.py that deletes a day, measures again and asks again. The free space is what the system
-- reports for the days that are left.
use obehy.Prelude.{
  ℕ, zero, suc, ◌*◌, Option, none, some, List, [], ◌∷◌, ltb, leb, nat_beq, if◌then◌else◌,
}
use obehy.Prelude.Lists.{length, keep_if}
use obehy.Model.Facts.{Date}

pub record GuardPolicy : Type 0 where
  pub free_gb : ℕ
  pub min_raw_days : ℕ
  pub min_history_days : ℕ

-- `GB`
abbrev pub gb : ℕ
gb = 1024 * 1024 * 1024

pub data Step : Type 0 where
  raw history : Date → Step

unfoldable pub insert_day : Date → List Date → List Date
insert_day d [] = d ∷ []
insert_day d (e ∷ es) =
    if ltb d e then d ∷ e ∷ es else if nat_beq d e then e ∷ es else e ∷ insert_day d es

-- `sorted(set(days))`
unfoldable pub sorted_set : List Date → List Date
unfolding insert_day
sorted_set [] = []
sorted_set (d ∷ ds) = insert_day d (sorted_set ds)

-- The first of the days, if there are more than the minimum of them; else `rest`.
unfoldable pub oldest : (Date → Step) → ℕ → List Date → Option Step → Option Step
oldest kind minimum [] rest = rest
oldest kind minimum (d ∷ ds) rest = if ltb minimum (length (d ∷ ds)) then some (kind d) else rest

unfoldable pub next_step : ℕ → GuardPolicy → List Date → List Date → Option Step
unfolding oldest
next_step free_bytes guard raw_days history_days =
    if leb (guard.free_gb * gb) free_bytes
    then none
    else oldest raw guard.min_raw_days (sorted_set raw_days)
        (oldest history guard.min_history_days (sorted_set history_days) none)

module _ (free : List Date → List Date → ℕ) (guard : GuardPolicy) where
  -- `prune_archive(archive, day + 1)` and `drop_history(connection, day + 1)`: the later days stay.
  unfoldable pub after_step : Step → List Date × List Date → List Date × List Date
  after_step (raw d) days = (keep_if (ltb d) days.0, days.1)
  after_step (history d) days = (days.0, keep_if (ltb d) days.1)

  -- The loop of `hourly`, a pass per unit of fuel.
  unfoldable pub guard_disk : ℕ → List Date × List Date → List Date × List Date
  unfolding after_step
  guard_disk zero days = days
  guard_disk (suc n) days = elim (next_step (free days.0 days.1) guard days.0 days.1) [
    | none ↦ days
    | some step ↦ guard_disk n (after_step step days)
  ]
