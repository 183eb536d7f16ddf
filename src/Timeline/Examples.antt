-- ===== src/Timeline/Examples.antt =====
-- The repair of the estimates and the merging of events at concrete inputs.
use obehy.Prelude.{◌+◌, ◌-◌, ◌≤◌, ◌≡◌, refl, true, none, some, [], ◌∷◌, arith, if◌then◌else◌}
use obehy.Model.Facts.{Interval}
use obehy.Model.Journey.{CallStatus, Instance, estimated}
use obehy.Core.Samples.{sample_call_state, led_instance, sample_policy}
use obehy.Timeline.Estimate.{monotone, merge}
use obehy.Timeline.Monotone.{Ordered, Later, monotone-Ordered, monotone-Later, merge-within}

-- The second call is predicted before the vehicle leaves the first.
abbrev crossed : Instance
crossed = record led_instance {
  calls =
      estimated sample_call_state (some 100) (some 160) CallStatus.predicted none
      ∷ estimated sample_call_state (some 130) none CallStatus.predicted none
      ∷ [];
}

repairs :
    (monotone crossed).calls
    ≡ estimated sample_call_state (some 100) (some 160) CallStatus.predicted none
      ∷ estimated sample_call_state (some 160) none CallStatus.predicted none
      ∷ []
unfolding monotone obehy.Timeline.Estimate.repair
repairs = refl

monotone-Ordered_example : Ordered none (monotone crossed).calls
monotone-Ordered_example = monotone-Ordered crossed

monotone-Later_example :
    Later crossed.calls (monotone crossed).calls × (monotone (monotone crossed) ≡ monotone crossed)
monotone-Later_example = monotone-Later crossed

abbrev minute : Interval
minute = record { lo = 60000000; hi = 120000000 }

abbrev measured : Interval
measured = record { lo = 70000000; hi = 80000000 }

merge-within_example :
    ((merge (some measured) minute true sample_policy.rail).lo
      ≤ (merge (some measured) minute true sample_policy.rail).hi)
    × ((if true then minute.lo else measured.lo) - sample_policy.rail.event_tolerance_s
        ≤ (merge (some measured) minute true sample_policy.rail).lo)
    × ((merge (some measured) minute true sample_policy.rail).hi
        ≤ (if true then minute.hi else measured.hi) + sample_policy.rail.event_tolerance_s)
merge-within_example =
    merge-within measured minute true sample_policy.rail (omega arith) (omega arith)

narrows : merge (some measured) minute true sample_policy.rail ≡ measured
unfolding merge
narrows = refl
