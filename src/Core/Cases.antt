-- ===== src/Core/Cases.antt =====
-- The theorems on cancellations, followers and binding at concrete inputs.
use native.Mathlib.Decide.{ℕ_discrete}
use mathlib.Core.Bool.{decide}
use obehy.Prelude.{
  ◌+◌, ◌≡◌, ◌≢◌, refl, ap, arith, Bool, true, false, none, some, List, [], ◌∷◌, is_some, inl, ◌==◌,
}
use obehy.Core.Binding.{Lifecycle-discrete, call_states, continued, stale}
use obehy.Core.Cancel.{cancel, cancel_outcome}
use obehy.Core.Context.{semantics_of, vehicle_of}
use obehy.Core.Follow.{drive, follow, progress}
use obehy.Core.Journey.{leads, next_lifecycle, open_journey}
use obehy.Core.Observe.{step, step_bare}
use obehy.Core.Step.{Feed-discrete, repeated, step_keyed, step_vehicle}
use obehy.Fusion.{lead_of, track_in, with_lead}
use obehy.Index.{end, start, valid_on}
use obehy.Keyed.{collect, in_window, select, visit}
use obehy.Model.Facts.{all_in, first_in}
use obehy.Model.Journey.{JourneyKey-discrete, VehicleId-discrete}
use obehy.Policy.{by_mode}
use obehy.Prelude.Dict.{insert, lookup}
use obehy.Prelude.Equal.{String_discrete}
use obehy.Times.{candidate_service_dates, instant}
use obehy.Core.Samples.{
  sample_context, sighting, ten_past, bus, tram, led_instance, led_state, sample_binding,
  sample_match, sample_journey, sample_key, sample_policy, cancelling,
}
use obehy.Model.State.{FeedState}
use obehy.Model.Journey.{VehicleId, Instance, vehicle_id_eq, journey_key_eq, Binding}
use obehy.Model.Effects.{Effect}
use obehy.Keyed.{found}
use obehy.Core.Binding.{bind}
use obehy.Core.Moves.{Moves}
use obehy.Core.Bare.{step_bare-Moves}
use obehy.Core.Window.{bind-Admits}
use obehy.Core.Spares.{HasRun, cancel-spares, LedBy, follow-second}
use obehy.Core.Samples.{the, the-eq}
use obehy.Index.{Trip}
use obehy.Core.Rebase.{rebase, resolve}
use obehy.Prelude.Sort.{sort_by}
use obehy.Runs.{journey_spans}
use obehy.Core.Kept.{KeepsPlaces, rebase-KeepsPlaces}
use obehy.Core.Samples.{sample_call_state, sample_index, fresh}

-- The cancellation, the row without a vehicle, the second vehicle and the binding run through.
runs_through :
    (is_some (cancel sample_context led_state cancelling) ≡ true)
    × (is_some (step_bare sample_context led_state cancelling) ≡ true)
    × (is_some (
          follow sample_context led_state
            (sighting ten_past)
            bus
            none
            (some sample_key)
            none
            sample_binding
            [])
        ≡ true)
    × (bind sample_context (sighting ten_past) ten_past ≡ some (found sample_match))
unfolding cancel cancel_outcome Feed-discrete JourneyKey-discrete Lifecycle-discrete String_discrete
    all_in obehy.Core.Binding.bind obehy.Keyed.bind by_mode candidate_service_dates collect
    continued drive end first_in follow in_window insert instant journey_spans lead_of leads lookup
    next_lifecycle open_journey progress repeated select semantics_of sort_by stale start step
    step_keyed step_vehicle track_in valid_on vehicle_of visit with_lead mathlib.Core.Bool.decide
    native.Mathlib.Decide.ℕ_discrete obehy.Core.Observe.step_bare
    obehy.Model.Journey.VehicleId-discrete
runs_through = (refl, refl, refl, refl)

abbrev after_cancel : FeedState × List Effect
after_cancel = the (cancel sample_context led_state cancelling) runs_through.0

led : lookup sample_journey led_state.instances ≡ some led_instance
unfolding lookup JourneyKey-discrete mathlib.Core.Bool.decide obehy.Prelude.Equal.String_discrete
    native.Mathlib.Decide.ℕ_discrete
led = refl

ran_already : HasRun led_instance
unfolding HasRun
ran_already = inl refl

cancel-spares_example : lookup sample_journey after_cancel.0.instances ≡ some led_instance
cancel-spares_example =
    cancel-spares sample_context led_state after_cancel.0 cancelling after_cancel.1 sample_journey
      led_instance led ran_already
      (the-eq (cancel sample_context led_state cancelling) runs_through.0)

abbrev after_bare : FeedState × List Effect
after_bare = the (step_bare sample_context led_state cancelling) runs_through.1

step_bare-Moves_example : Moves led_state after_bare.0
step_bare-Moves_example =
    step_bare-Moves sample_context cancelling led_state after_bare.0 after_bare.1
      (the-eq (step_bare sample_context led_state cancelling) runs_through.1)

tram_leads : LedBy led_instance "dpp" (record { vehicle = tram; seen = ten_past })
tram_leads = LedBy.first_lead refl refl

tram_other : tram ≢ bus
unfolding decide VehicleId-discrete String_discrete
tram_other p = let q : true ≡ false = ap (λ (x : VehicleId). x == tram) p in cc

abbrev followed : FeedState × List Effect
followed =
    the
      (follow sample_context led_state (sighting ten_past) bus none (some sample_key) none
        sample_binding [])
      runs_through.2

follow-second_example : followed.0.instances ≡ led_state.instances
follow-second_example =
    follow-second sample_context led_state followed.0 (sighting ten_past) bus none (some sample_key)
      none sample_binding [] followed.1 led_instance (record { vehicle = tram; seen = ten_past })
      led tram_leads tram_other (omega arith)
      (the-eq
        (follow sample_context led_state (sighting ten_past) bus none (some sample_key) none
          sample_binding [])
        runs_through.2)

bind-Admits_example : in_window sample_policy.time ten_past sample_match ≡ true
bind-Admits_example =
    bind-Admits sample_context (sighting ten_past) ten_past sample_match runs_through.3

-- The journey with what was observed at its first call.
abbrev served_state : FeedState
served_state = record fresh {
  instances =
      (
        sample_journey,
        record led_instance {
          calls = record sample_call_state { passed_departure = some ten_past } ∷ [];
        },
      )
      ∷ [];
}

moves : is_some (rebase sample_index served_state) ≡ true
unfolding rebase resolve sort_by valid_on journey_spans String_discrete
moves = refl

abbrev moved : FeedState × List Effect
moved = the (rebase sample_index served_state) moves

stays : is_some (lookup sample_journey moved.0.instances) ≡ true
unfolding rebase resolve sort_by valid_on journey_spans String_discrete lookup JourneyKey-discrete
    obehy.Prelude.Dict.filter_map obehy.Core.Rebase.rebased mathlib.Core.Bool.decide
    native.Mathlib.Decide.ℕ_discrete
stays = refl

rebase-KeepsPlaces_example :
    (i : Instance) × (lookup sample_journey served_state.instances ≡ some i)
    × (trip : Trip) × (resolve sample_index sample_journey ≡ some trip)
    × ((the (lookup sample_journey moved.0.instances) stays).trip_id ≡ trip.trip_id)
    × KeepsPlaces sample_index i.calls
        (call_states trip)
        (the (lookup sample_journey moved.0.instances) stays).calls
rebase-KeepsPlaces_example =
    rebase-KeepsPlaces sample_index served_state moved.0 moved.1 sample_journey
      (the (lookup sample_journey moved.0.instances) stays)
      (the-eq (rebase sample_index served_state) moves)
      (the-eq (lookup sample_journey moved.0.instances) stays)
