-- ===== src/Core/Examples.antt =====
-- The theorems on steps, upkeep and release changes at concrete inputs.
use native.Mathlib.Decide.{ℕ_discrete}
use mathlib.Core.Bool.{decide}
use obehy.Prelude.{
  ◌+◌, ◌≡◌, ◌≢◌, refl, Bool, true, false, Option, none, some, List, [], ◌∷◌, is_some, ap, ◌==◌,
}
use obehy.Core.Binding.{Lifecycle-discrete, continued, stale}
use obehy.Core.Context.{semantics_of, vehicle_of}
use obehy.Core.Follow.{drive, follow, hold_events, progress}
use obehy.Core.Journey.{leads, next_lifecycle, open_journey}
use obehy.Core.Observe.{step}
use obehy.Core.Step.{Feed-discrete, repeated, step_keyed, step_vehicle}
use obehy.Core.Vehicle.{set_vehicle}
use obehy.Fusion.{lead_of, track_in, with_lead}
use obehy.Index.{end, start, valid_on}
use obehy.Keyed.{collect, in_window, select, visit}
use obehy.Model.Facts.{TripKey-discrete, all_in, first_in}
use obehy.Model.Journey.{JourneyKey-discrete, VehicleId-discrete}
use obehy.Policy.{by_mode}
use obehy.Prelude.Dict.{insert, lookup}
use obehy.Prelude.Equal.{String_discrete}
use obehy.Prelude.Sort.{sort_by}
use obehy.Runs.{journey_spans}
use obehy.Times.{candidate_service_dates, instant}
use obehy.Core.Samples.{
  sample_context, sample_index, empty_index, fresh, sighting, ten_past, bus, still_laws,
  sample_binding, sample_key,
}
use obehy.Model.Facts.{Feed, as_trip_key, first}
use obehy.Model.State.{FeedState, VehicleState}
use obehy.Model.Journey.{VehicleId, vehicle_id_eq, journey_key_eq, Binding}
use obehy.Model.Effects.{Effect}
use obehy.Model.Facts.{Observation}
use obehy.Core.Binding.{bind}
use obehy.Core.Samples.{tram}
use obehy.Core.Sound.{IsSound, step-IsSound}
use obehy.Core.Again.{NoEarlier, step-again, step-others, step-fixes}
use obehy.Core.Upkeep.{refresh}
use obehy.Core.Keeps.{refresh-IsSound}
use obehy.Core.Rebase.{rebase}
use obehy.Core.Release.{Follows, rebase-IsSound}
use obehy.Core.Reach.{Reached, started, observed, Reached-IsSound, empty-IsSound}
use obehy.Core.Current.{Current, step-Current}
use obehy.Core.Samples.{the, the-eq}

-- A bus that shows the key of a running trip is bound to its journey.
runs : is_some (step sample_context fresh (sighting ten_past)) ≡ true
unfolding Feed-discrete JourneyKey-discrete Lifecycle-discrete String_discrete all_in
    obehy.Core.Binding.bind obehy.Keyed.bind by_mode candidate_service_dates collect continued drive
    end first_in follow in_window insert instant journey_spans lead_of leads lookup next_lifecycle
    open_journey progress repeated select semantics_of sort_by stale start step step_keyed
    step_vehicle track_in valid_on vehicle_of visit with_lead mathlib.Core.Bool.decide
    native.Mathlib.Decide.ℕ_discrete
runs = refl

abbrev boarded : FeedState × List Effect
boarded = the (step sample_context fresh (sighting ten_past)) runs

-- The bus a minute later, at the same place.
abbrev later : Observation
later = sighting (ten_past + 60000000)

-- After boarding: the bus is recorded; a minute later it is stepped again; and the release without
-- its line is taken.
rides :
    (is_some (lookup bus boarded.0.vehicles) ≡ true)
    × (is_some (step sample_context boarded.0 later) ≡ true)
    × (is_some (rebase empty_index boarded.0) ≡ true)
unfolding Feed-discrete JourneyKey-discrete Lifecycle-discrete String_discrete all_in
    obehy.Core.Binding.bind obehy.Keyed.bind by_mode candidate_service_dates collect continued drive
    end first_in follow in_window insert instant journey_spans lead_of leads lookup next_lifecycle
    open_journey progress repeated select semantics_of sort_by stale start step step_keyed
    step_vehicle track_in valid_on vehicle_of visit with_lead mathlib.Core.Bool.decide
    native.Mathlib.Decide.ℕ_discrete obehy.Core.Vehicle.set_vehicle
    obehy.Model.Journey.VehicleId-discrete obehy.Model.Facts.TripKey-discrete
    obehy.Core.Follow.hold_events obehy.Core.Rebase.rebase obehy.Core.Rebase.resolve
rides = (refl, refl, refl)

abbrev seen_bus : VehicleState
seen_bus = the (lookup bus boarded.0.vehicles) rides.0

seen : lookup bus boarded.0.vehicles ≡ some seen_bus
seen = the-eq (lookup bus boarded.0.vehicles) rides.0

bound_there : seen_bus.binding ≡ some sample_binding
unfolding Feed-discrete JourneyKey-discrete Lifecycle-discrete String_discrete all_in
    obehy.Core.Binding.bind obehy.Keyed.bind by_mode candidate_service_dates collect continued drive
    end first_in follow in_window insert instant journey_spans lead_of leads lookup next_lifecycle
    open_journey progress repeated select semantics_of sort_by stale start step step_keyed
    step_vehicle track_in valid_on vehicle_of visit with_lead mathlib.Core.Bool.decide
    native.Mathlib.Decide.ℕ_discrete obehy.Core.Vehicle.set_vehicle
    obehy.Model.Journey.VehicleId-discrete
bound_there = refl

ran : step sample_context fresh (sighting ten_past) ≡ some boarded
ran = the-eq (step sample_context fresh (sighting ten_past)) runs

bus_of : vehicle_of (sighting ten_past) ≡ some bus
unfolding vehicle_of first_in
bus_of = refl

boarded-Reached : Reached sample_context Feed.jdf sample_index boarded.0
boarded-Reached =
    observed sample_index fresh boarded.0 (sighting ten_past) boarded.1 (started sample_index) ran

fresh-IsSound : IsSound fresh
fresh-IsSound = empty-IsSound sample_context Feed.jdf still_laws

boarded-IsSound : IsSound boarded.0
boarded-IsSound =
    Reached-IsSound sample_context Feed.jdf still_laws sample_index boarded.0 boarded-Reached

Reached-IsSound_example : IsSound boarded.0
Reached-IsSound_example =
    Reached-IsSound sample_context Feed.jdf still_laws sample_index boarded.0 boarded-Reached

step-IsSound_example : IsSound boarded.0
step-IsSound_example =
    step-IsSound sample_context fresh boarded.0 (sighting ten_past) boarded.1 still_laws
      fresh-IsSound ran

step-again_example : step sample_context boarded.0 (sighting ten_past) ≡ some (boarded.0, [])
step-again_example =
    step-again sample_context fresh boarded.0 (sighting ten_past) boarded.1 bus ten_past still_laws
      bus_of refl ran

key_of : first as_trip_key (sighting ten_past) ≡ some sample_key
unfolding first_in
key_of = refl

unseen : repeated (lookup bus fresh.vehicles) (sighting ten_past) ≡ false
unfolding repeated lookup
unseen = refl

step-Current_example : Current sample_context (sighting ten_past) sample_binding
step-Current_example =
    step-Current sample_context fresh boarded.0 (sighting ten_past) boarded.1 bus sample_key
      seen_bus sample_binding bus_of key_of unseen ran seen bound_there

tram_apart : vehicle_of (sighting ten_past) ≢ some tram
unfolding vehicle_of first_in VehicleId-discrete mathlib.Core.Bool.decide
    obehy.Prelude.Equal.String_discrete
tram_apart p =
    let q : true ≡ false =
      ap (λ (x : Option VehicleId). elim x [ none ↦ true | some v ↦ v == bus ]) p in
    cc

step-others_example : lookup tram boarded.0.vehicles ≡ lookup tram fresh.vehicles
step-others_example =
    step-others sample_context fresh boarded.0 (sighting ten_past) boarded.1 tram still_laws
      tram_apart ran

abbrev rode : FeedState × List Effect
rode = the (step sample_context boarded.0 later) rides.1

step-fixes_example :
    (d : VehicleState) × (lookup bus rode.0.vehicles ≡ some d)
    × NoEarlier seen_bus.position_at d.position_at
step-fixes_example =
    step-fixes sample_context boarded.0 rode.0 later rode.1 bus seen_bus still_laws boarded-IsSound
      seen (the-eq (step sample_context boarded.0 later) rides.1)

refresh-IsSound_example : IsSound (refresh sample_context (ten_past + 3600000000) boarded.0).0
refresh-IsSound_example =
    refresh-IsSound sample_context (ten_past + 3600000000) boarded.0 boarded-IsSound

abbrev moved_on : FeedState × List Effect
moved_on = the (rebase empty_index boarded.0) rides.2

rebase-IsSound_example : IsSound moved_on.0 × Follows empty_index boarded.0 moved_on.0
rebase-IsSound_example =
    rebase-IsSound empty_index boarded.0 moved_on.0 moved_on.1 boarded-IsSound
      (the-eq (rebase empty_index boarded.0) rides.2)
