-- ===== src/Fusion/Examples.antt =====
-- A point event at a concrete input: a train that stands at its last stop.
use obehy.Prelude.{ℕ, Option, ◌+◌, ◌≡◌, refl, ◌⊎◌, true, none, some, is_some, List, [], ◌∷◌}
use obehy.Prelude.Ints.{pos}
use obehy.Model.Facts.{PointEvent, Observation, Fact, first_in, first}
use obehy.Model.Journey.{CallState, Instance}
use obehy.Index.{IndexView}
use obehy.Policy.{ProgressPolicy}
use obehy.Timeline.Timetable.{Plan}
use obehy.Model.Effects.{Effect}
use obehy.Runs.{public_call}
use obehy.Fusion.{track_in}
use obehy.Fusion.Resolve.{consistent, codes_of, start_call}
use obehy.Fusion.Points.{as_point_event, apply_point}
use obehy.Fusion.Forward.{IsPlace, MovesOn, apply_point-Forward}
use obehy.Core.Samples.{
  led_instance, sample_call_state, sample_index, sample_policy, sample_trip, sample_fact, ten_past,
  the, the-eq,
}

abbrev codes_by_place : IndexView
codes_by_place = record sample_index { location_key = λ location_id namespace. some location_id }

abbrev two_calls : List CallState
two_calls = sample_call_state ∷ record sample_call_state { sequence = 2; location_id = "B" } ∷ []

abbrev on_the_way : Instance
on_the_way = record led_instance { calls = two_calls }

abbrev stands_at_b : PointEvent
stands_at_b = record {
  name = "B";
  codes = "B" ∷ [];
  scheduled = none;
  actual = record { lo = ten_past; hi = ten_past + 60000000 };
  standing = true;
}

abbrev report : Observation
report = sample_fact ten_past (Fact.point_event stands_at_b ∷ [])

abbrev short_plan : Plan
short_plan = record {
  call_distances_m = pos 0 ∷ pos 500 ∷ [];
  zones =
      record { arrival_m = none; departure_m = some (pos 30) }
      ∷ record { arrival_m = some (pos 470); departure_m = none }
      ∷ [];
  scheduled = [];
  timetable = [];
  triggers = [];
}

abbrev cautious : ProgressPolicy
cautious = record {
  agree_within = pos 4;
  max_commit_lag_s = 600;
  max_event_interval_s = 120;
  max_inferred_spread_s = 60;
  max_extrapolate_s = 60;
  jitter_m = 20;
}

abbrev applied : Option (Instance × List Effect)
applied =
    apply_point short_plan cautious sample_policy.rail codes_by_place sample_trip report none
      on_the_way

returns : is_some applied ≡ true
unfolding apply_point first_in consistent public_call track_in
returns = refl

abbrev at_b : Instance × List Effect
at_b = the applied returns

apply_point-Forward_example :
    (at_b.0 ≡ on_the_way)
    ⊎ ((event : PointEvent) × (first as_point_event report ≡ some event)
        × (n : ℕ) × IsPlace codes_by_place on_the_way sample_trip
            (codes_of event none)
            event.actual
            sample_policy.rail
            (start_call on_the_way none)
            n
        × MovesOn n on_the_way at_b.0)
apply_point-Forward_example =
    apply_point-Forward short_plan cautious sample_policy.rail codes_by_place sample_trip report
      none on_the_way at_b.0 at_b.1 (the-eq applied returns)
