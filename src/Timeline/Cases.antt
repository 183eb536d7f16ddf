-- ===== src/Timeline/Cases.antt =====
-- Commits at concrete inputs: two readings of a bus that leaves its first stop.
use mathlib.Core.Bool.{decide}
use native.Mathlib.Decide.{ℕ_discrete}
use obehy.Prelude.{◌≡◌, refl, Option, none, some, List, [], ◌∷◌, or_else}
use obehy.Prelude.Ints.{pos, negsuc, lez, ltz, neg, minz, rounded, above}
use obehy.Prelude.Raises.{Gives}
use obehy.Model.Facts.{Instant, Float, EventKind}
use obehy.Model.Journey.{Placement, Hypothesis}
use obehy.Policy.{ProgressPolicy}
use obehy.Timeline.Timetable.{
  Plan, StopZone, spans_from, Scheduled, triggers_between, scheduled_time, planned,
}
use obehy.Timeline.Brackets.{Times-discrete, bracket_of, cut, deciding_of}
use obehy.Timeline.Commit.{Committed, commit}
use obehy.Timeline.Readings.{IsReady}
use obehy.Timeline.Crossings.{HasHistory}
use obehy.Timeline.Ordered.{IsCommit}
use obehy.Timeline.Build.{build_plan, build_plan-commits}
use obehy.Timeline.History.{Compact, first?, last?, placed_all, placed_all-bracket}
use obehy.Timeline.Cut.{LeftFrom, cut-bracket}

abbrev cautious : ProgressPolicy
cautious = record {
  agree_within = pos 4;
  max_commit_lag_s = 600;
  max_event_interval_s = 120;
  max_inferred_spread_s = 60;
  max_extrapolate_s = 60;
  jitter_m = 20;
}

abbrev two_calls : Scheduled
two_calls = (none, some 1000) ∷ (some 2000, none) ∷ []

abbrev two_zones : List StopZone
two_zones =
    record { arrival_m = none; departure_m = some (pos 30) }
    ∷ record { arrival_m = some (pos 470); departure_m = none }
    ∷ []

abbrev short_plan : Plan
short_plan = record {
  call_distances_m = pos 0 ∷ pos 500 ∷ [];
  zones = two_zones;
  scheduled = two_calls;
  timetable = or_else (spans_from none (pos 0 ∷ pos 500 ∷ []) two_calls two_zones) [];
  triggers =
      record { along_m = pos 30; call = 0; kind = EventKind.departure }
      ∷ record { along_m = pos 470; call = 1; kind = EventKind.arrival }
      ∷ [];
}

abbrev fix_at : Float → Instant → Placement
fix_at along at = record { along_m = along; at = at }

abbrev reading : Float → Float → Hypothesis
reading along log_p = record {
  along_m = along;
  at = 1140;
  lateness_s = pos 40;
  log_p = log_p;
  history = fix_at (pos 0) 1000 ∷ fix_at (pos 10) 1040 ∷ fix_at along 1140 ∷ [];
  off_path_since = none;
  reckoned_m = pos 0;
}

abbrev two_readings : List Hypothesis
two_readings = reading (pos 250) (pos 0) ∷ reading (pos 270) (negsuc 0) ∷ []

abbrev outcome_of : Option Committed
outcome_of = commit short_plan cautious two_readings (pos 0) none 1140

short_plan-laid : build_plan (pos 0 ∷ pos 500 ∷ []) two_calls two_zones ≡ some short_plan
unfolding build_plan ltz spans_from lez
short_plan-laid = refl

two_readings-IsReady : IsReady cautious two_readings
unfolding IsReady lez ltz neg HasHistory
two_readings-IsReady = ((tt, (tt, tt)), refl)

-- Both readings passed the first stop's departure between the same two fixes.
build_plan-commits_example : Gives (commit short_plan cautious two_readings (pos 0) none 1140) (λ r.
    Gives
      (deciding_of two_readings 1140 cautious)
      (λ deciding. IsCommit short_plan deciding (pos 0) none r))
build_plan-commits_example =
    build_plan-commits (pos 0 ∷ pos 500 ∷ []) two_calls two_zones short_plan cautious two_readings
      (pos 0) none 1140 short_plan-laid two_readings-IsReady

-- The bus stands for three fixes before it goes on.
abbrev standing : List Placement
standing =
    fix_at (pos 0) 1000 ∷ fix_at (pos 0) 1010 ∷ fix_at (pos 0) 1020 ∷ fix_at (pos 40) 1030 ∷ []

placed_all-bracket_example :
    Compact (placed_all [] standing)
    × (first? (placed_all [] standing) ≡ first? standing)
    × (last? (placed_all [] standing) ≡ last? standing)
    × ((along : Float) → bracket_of (placed_all [] standing) along ≡ bracket_of standing along)
placed_all-bracket_example = placed_all-bracket standing

cut-bracket_example :
    LeftFrom
      (pos 30)
      (reading (pos 250) (pos 0)).history
      (cut (pos 30) (reading (pos 250) (pos 0))).history
    × (bracket_of (cut (pos 30) (reading (pos 250) (pos 0))).history (pos 200)
        ≡ bracket_of (reading (pos 250) (pos 0)).history (pos 200))
unfolding cut lez ltz
cut-bracket_example =
    cut-bracket (pos 30) (pos 200) (reading (pos 250) (pos 0)) (fix_at (pos 0) 1000 ∷ []) refl
      (refl, tt) refl

unfoldable last_crossing : Option Committed → Option Instant
last_crossing none = none
last_crossing (some r) = r.crossed_at

-- The departure is due before both fixes, so it is placed at the first.
departs_at : last_crossing outcome_of ≡ some 1040
unfolding last_crossing commit lez neg triggers_between minz decide Times-discrete ℕ_discrete
    scheduled_time planned spans_from rounded above
departs_at = refl
