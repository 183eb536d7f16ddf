-- ===== src/Timeline/Placing.antt =====
-- When a vehicle crossed a point, by the timetable (`_crossing_time`, `_inferred`, `_before_first` and
-- `terminus` of src/obehy/realtime/timeline/commit.py).
use obehy.Prelude.{
  ℕ, ◌+◌, ◌-◌, ◌*◌, ◌||◌, Option, none, some, List, [], ◌∷◌, nat_eq, ltb, leb, min, max,
  if◌then◌else◌, map,
}
use obehy.Prelude.Ints.{ℤ, pos, above, plus, minz, maxz, rounded}
use obehy.Prelude.Lists.{length}
use obehy.Prelude.Raises.{Raises, ◌>>=◌}
use obehy.Model.Facts.{Instant, Float, Interval, EventKind}
use obehy.Model.Journey.{Placement}
use obehy.Policy.{ProgressPolicy}
use obehy.Timeline.Timetable.{Trigger, Plan, planned, lateness, scheduled_time}
use obehy.Timeline.Brackets.{Bracket, times_eq, hypothesis_eq, last_of}

-- The place in proportion between two instants.
unfoldable pub in_proportion : Instant → Instant → ℕ → ℕ → Instant
in_proportion from to n d =
    if leb from to
    then from + rounded ((to - from) * min n d) d
    else from - rounded ((from - to) * min n d) d

unfoldable pub by_distance : Bracket → Float → Instant
unfolding in_proportion
by_distance (before, after) along =
    in_proportion before.at after.at (above along before.along_m)
      (above after.along_m before.along_m)

-- By timetable time, where the timetable has the times in order; else by distance.
unfoldable pub by_timetable :
    Bracket → Float → Option Instant → Option Instant → Option Instant → Instant
unfolding by_distance in_proportion
by_timetable (before, after) along (some due) (some s0) (some s1) =
    if ltb s0 s1
    then in_proportion before.at after.at (due - s0) (s1 - s0)
    else by_distance (before, after) along
by_timetable bracket along due s0 s1 = by_distance bracket along

-- The least or the most of `a, …`.
unfoldable pub fold_z : (ℤ → ℤ → ℤ) → ℤ → List ℤ → ℤ
fold_z f a [] = a
fold_z f a (b ∷ bs) = fold_z f (f a b) bs

module _ (plan : Plan) (policy : ProgressPolicy) where
  -- `_crossing_time`
  unfoldable pub crossing_time : Bracket → Trigger → Raises Instant
  unfolding by_timetable
  crossing_time (before, after) trigger = scheduled_time plan trigger.call trigger.kind >>= λ due.
      some (
        by_timetable (before, after) trigger.along_m due
          (planned plan.timetable before.at before.along_m)
          (planned plan.timetable after.at after.along_m))

  -- The scheduled time shifted by the lateness on either side, within the fixes.
  unfoldable pub shifted : Bracket → Instant → Instant → Float → Float → Option Interval
  shifted (before, after) when due least most =
      let lo = max before.at (min when (plus due least)) in
      let hi = min after.at (max when (plus due most)) in
      if ltb policy.max_inferred_spread_s (above most least)
      then none
      else some (if leb lo hi then record { lo = lo; hi = hi } else record { lo = when; hi = when })

  -- `_inferred`
  unfoldable pub inferred_at : Bracket → Trigger → Instant → Raises (Option Interval)
  unfolding shifted
  inferred_at (before, after) trigger when =
      scheduled_time plan trigger.call trigger.kind >>= λ due. some (elim due [
        | none ↦ none
        | some due ↦
            let a = lateness plan.timetable before.at before.along_m in
            let b = lateness plan.timetable after.at after.along_m in
            shifted (before, after) when due (minz a b) (maxz a b)
      ])

  -- The origin's departure, from the lateness at the first fix.
  unfoldable pub departed : Placement → Option Instant → Option Instant → Option Interval
  departed first (some due) (some reached) =
      let late = lateness plan.timetable first.at first.along_m in
      let lo = min due (plus due late) in
      let hi = min first.at (plus due (maxz late (pos 0))) in
      if ltb (due + policy.max_extrapolate_s) reached
      then none
      else some (record { lo = min lo hi; hi = hi })
  departed first due reached = none

  -- `_before_first`
  unfoldable pub before_first : Placement → Trigger → Raises (Option Interval)
  unfolding departed
  before_first first trigger = scheduled_time plan trigger.call trigger.kind >>= λ due.
      some (departed first due (planned plan.timetable first.at first.along_m))

  -- The scheduled arrival shifted by the lateness at the fixes, the last of them `fix`.
  unfoldable pub arrived : Placement → List Placement → Instant → Instant → Option Interval
  unfolding fold_z
  arrived fix history due reached =
      let late = map (λ p. lateness plan.timetable p.at p.along_m) history in
      let here = lateness plan.timetable fix.at fix.along_m in
      let least = fold_z minz here late in
      let most = fold_z maxz here late in
      if ltb (reached + policy.max_extrapolate_s) due
        || ltb policy.max_inferred_spread_s (above most least)
      then none
      else some (record { lo = max fix.at (plus due least); hi = max fix.at (plus due most) })

  -- `terminus`
  unfoldable pub terminus : List Placement → Raises (Option Interval)
  unfolding arrived last_of
  terminus history = scheduled_time plan (length plan.scheduled - 1) EventKind.arrival >>= λ due.
      some (elim due [
        | none ↦ none
        | some due ↦ elim history [
          | [] ↦ none
          | first ∷ rest ↦
              let fix = last_of first rest in
              elim (planned plan.timetable fix.at fix.along_m) [
                | none ↦ none
                | some reached ↦ arrived fix (first ∷ rest) due reached
              ]
        ]
      ])
