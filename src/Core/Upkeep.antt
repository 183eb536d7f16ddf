-- ===== src/Core/Upkeep.antt =====
-- The upkeep of a feed's state at each emit tick: `refresh`, `_arrived_unseen` and
-- `estimate_all` of core.py. The learned running times (`forget`, `record`) are left out.
use obehy.Prelude.{
  ℕ, ◌+◌, ◌-◌, Bool, true, false, not, ◌&&◌, ◌||◌, Option, none, some, List, [], ◌∷◌, map, ◌==◌,
  ltb, if◌then◌else◌, is_some, or_else,
}
use obehy.Prelude.Lists.{length, get_elem?, any, contains}
use obehy.Prelude.Dict.{Dict, filter_map}
use obehy.Model.Facts.{Instant, Interval, EventKind}
use obehy.Model.Journey.{
  VehicleId, vehicle_id_eq, JourneyKey, journey_key_eq, Binding, Lifecycle, CallState, CallStatus,
  Track, EventMethod, WriteEvent, Instance,
}
use obehy.Model.State.{VehicleState, FeedState, add_dirty}
use obehy.Model.Effects.{Effect, write_event}
use obehy.Policy.{by_mode}
use obehy.Platforms.{set_call}
use obehy.Runs.{middle, public_call}
use obehy.Core.Context.{Context}
use obehy.Core.Binding.{lifecycle_eq, bound_to}

-- Some vehicle is bound to the journey; some vehicle's binding to it is not confirmed.
unfoldable pub is_bound : JourneyKey → Dict VehicleId VehicleState → Bool
unfolding bound_to
is_bound journey vehicles = any (λ (v, current). bound_to journey current) vehicles

unconfirmed_by : JourneyKey → Option Binding → Bool
unconfirmed_by journey none = false
unconfirmed_by journey (some b) = b.journey == journey && not b.confirmed

unfoldable pub unconfirmed : JourneyKey → Dict VehicleId VehicleState → Bool
unfolding unconfirmed_by
unconfirmed journey vehicles = any (λ (v, current). unconfirmed_by journey current.binding) vehicles

no_events : List WriteEvent → Bool
no_events [] = true
no_events (_ ∷ _) = false

abbrev bool_eq : Bool → Bool → Bool
bool_eq true b = b
bool_eq false b = not b

has_reading : Option Track → Bool
has_reading none = false
has_reading (some t) = elim t.hypotheses [ [] ↦ false | _ ∷ _ ↦ true ]

is_live : Lifecycle → Bool
is_live Lifecycle.finished = false
is_live Lifecycle.cancelled = false
is_live _ = true

module _ (ctx : Context) (now : Instant) where
  -- Vehicles not seen for `forget_after_s` are forgotten.
  unfoldable pub keep_seen : VehicleId → VehicleState → Option VehicleState
  keep_seen vehicle current =
      if ltb (current.last_seen + ctx.policy.lifecycle.forget_after_s) now
      then none
      else some current

  not_arrived : Instance → CallState → Bool
  unfolding has_reading
  not_arrived i call =
      i.lifecycle == Lifecycle.running
      && not (is_some call.arrival)
      && not (is_some call.passed_arrival)
      && has_reading i.track

  unfoldable pub arrival_at : Instance → ℕ → CallState → Interval → Option (Instance × WriteEvent)
  arrival_at i last call interval = elim (public_call i last EventKind.arrival) [
    | none ↦ none
    | some (journey, visit) ↦ some (
      record i {
        calls = set_call i.calls last (record call { passed_arrival = some (middle interval) });
        lifecycle = Lifecycle.finished;
      },
      record {
        journey = journey;
        location_id = call.location_id;
        visit_n = visit;
        kind = EventKind.arrival;
        interval = interval;
        method = EventMethod.inferred;
        source = or_else i.track_source "";
      },
    )
  ]

  -- `_arrived_unseen`: a journey gone quiet just short of its terminus has arrived there.
  unfoldable pub arrived_unseen : Instance → Option (Instance × WriteEvent)
  unfolding not_arrived arrival_at
  arrived_unseen i =
      let last = length i.calls - 1 in
      elim (get_elem? i.calls last) [
        | none ↦ none
        | some call ↦
            if not (not_arrived i call)
            then none
            else elim (ctx.engine.terminus i (ctx.index.trip i.trip_id)) [
              | none ↦ none
              | some interval ↦ arrival_at i last call interval
            ]
      ]

  is_stale : Instance → Bool
  unfolding is_live
  is_stale i =
      is_live i.lifecycle
      && ltb (i.freshness.heard_at + by_mode ctx.policy.lifecycle.stale_after_s i.mode) now

  is_lost : Instance → Bool
  unfolding is_live
  is_lost i =
      is_live i.lifecycle
      && ltb (i.freshness.heard_at + by_mode ctx.policy.lifecycle.predict_without_data_s i.mode) now

  unfoldable pub with_flags : Instance → Instance
  unfolding is_stale is_lost
  with_flags i = record i {
    freshness = record i.freshness { stale = is_stale i; lost = is_lost i };
  }

  unfoldable pub or_arrived :
      Instance → Option (Instance × WriteEvent) → Instance × Option WriteEvent
  or_arrived i none = (i, none)
  or_arrived i (some (arrived, event)) = (arrived, some event)

  same_flags : Instance → Bool
  unfolding is_stale is_lost
  same_flags i = bool_eq (is_stale i) i.freshness.stale && bool_eq (is_lost i) i.freshness.lost

  -- The freshness flags of an instance, when they changed, and its unseen arrival with them.
  unfoldable pub flagged : Bool → Instance → Instance × Option WriteEvent
  unfolding is_stale same_flags with_flags or_arrived no_events
  flagged unconfirmed i =
      if same_flags i
      then (i, none)
      else if is_stale i && not unconfirmed && no_events i.held
      then or_arrived (with_flags i) (arrived_unseen (with_flags i))
      else (with_flags i, none)

  -- One instance in the loop of `refresh`, none if it is forgotten.
  unfoldable pub refreshed :
      Dict VehicleId VehicleState → JourneyKey → Instance → Option (Instance × Option WriteEvent)
  unfolding flagged is_bound unconfirmed
  refreshed vehicles journey i =
      if ltb (i.freshness.heard_at + ctx.policy.lifecycle.forget_after_s) now
        && not (is_bound journey vehicles)
      then none
      else some (flagged (unconfirmed journey vehicles) i)

  unfoldable pub refreshed_instance :
      Dict VehicleId VehicleState → JourneyKey → Instance → Option Instance
  refreshed_instance vehicles journey i = elim (refreshed vehicles journey i) [
    | none ↦ none
    | some r ↦ some r.0
  ]

  arrivals : Dict VehicleId VehicleState → Dict JourneyKey Instance → Dict JourneyKey WriteEvent
  arrivals vehicles [] = []
  arrivals vehicles ((journey, i) ∷ rest) =
      let more = arrivals vehicles rest in
      elim (refreshed vehicles journey i) [
        | some (_, some event) ↦ (journey, event) ∷ more
        | _ ↦ more
      ]

  add_all : List JourneyKey → List JourneyKey → List JourneyKey
  add_all [] dirty = dirty
  add_all (j ∷ js) dirty = add_all js (add_dirty j dirty)

  -- `refresh`
  unfoldable pub refresh : FeedState → FeedState × List Effect
  unfolding refreshed_instance arrivals add_all
  refresh state =
      let vehicles = filter_map keep_seen state.vehicles in
      let arrived = arrivals vehicles state.instances in
      (
        record state {
          vehicles = vehicles;
          instances = filter_map (refreshed_instance vehicles) state.instances;
          dirty = add_all (map (λ (a : JourneyKey × WriteEvent). a.0) arrived) state.dirty;
        },
        map (λ (a : JourneyKey × WriteEvent). write_event a.1) arrived,
      )

  -- `_behind`: a running road journey's first predicted time is before now.
  first_predicted : List CallState → Option CallState
  first_predicted [] = none
  first_predicted (c ∷ cs) = elim c.status [
    | CallStatus.predicted ↦ some c
    | _ ↦ first_predicted cs
  ]

  predicted_before : CallState → Bool
  predicted_before c = elim c.estimated_arrival [
    | some t ↦ ltb t now
    | none ↦ elim c.estimated_departure [ some t ↦ ltb t now | none ↦ false ]
  ]

  unfoldable pub behind : Instance → Bool
  unfolding first_predicted predicted_before
  behind i = i.lifecycle == Lifecycle.running && (elim i.parts [
    | _ ∷ _ ↦ false
    | [] ↦ elim (first_predicted i.calls) [ none ↦ false | some c ↦ predicted_before c ]
  ])

  unfoldable pub reestimated : List JourneyKey → JourneyKey → Instance → Option Instance
  unfolding behind
  reestimated dirty journey i =
      if (contains journey dirty || behind i) && not (i.lifecycle == Lifecycle.cancelled)
      then some (ctx.engine.estimate i (ctx.index.trip i.trip_id) now)
      else some i

  -- `estimate_all`
  unfoldable pub estimate_all : FeedState → FeedState
  unfolding reestimated
  estimate_all state = record state {
    instances = filter_map (reestimated state.dirty) state.instances;
    dirty = [];
  }
