-- ===== src/Core/Follow.antt =====
-- A bound vehicle moves its journey: the end of `step` in core.py.
use obehy.Prelude.{
  Bool, true, false, not, ◌&&◌, Option, none, some, List, [], ◌∷◌, ◌++◌, map, ◌==◌, if◌then◌else◌,
}
use obehy.Prelude.Raises.{Raises, ◌>>=◌}
use obehy.Prelude.Dict.{lookup, insert}
use obehy.Model.Facts.{Position, TripKey, Observation, at}
use obehy.Model.Journey.{
  VehicleId, JourneyKey, journey_key_eq, Binding, KeylessEpisode, Lifecycle, WriteEvent, Instance,
  public,
}
use obehy.Model.State.{VehicleStatus, VehicleState, FeedState, add_dirty}
use obehy.Model.Effects.{Effect, write_event, observation_result, record_cancellation}
use obehy.Index.{Trip}
use obehy.Keyed.{span}
use obehy.Fusion.{with_lead}
use obehy.Core.Context.{Context, semantics_of}
use obehy.Core.Vehicle.{set_vehicle, vehicle_state}
use obehy.Core.Binding.{call_states, lifecycle_eq}
use obehy.Core.Journey.{next_lifecycle, leads}

-- The history events among the effects, and the other effects.
events_of : List Effect → List WriteEvent
events_of [] = []
events_of (write_event e ∷ es) = e ∷ events_of es
events_of (_ ∷ es) = events_of es

without_events : List Effect → List Effect
without_events [] = []
without_events (write_event e ∷ es) = without_events es
without_events (e ∷ es) = e ∷ without_events es

-- History waits until continuity confirms an inferred binding.
unfoldable pub hold_events : Bool → Instance → List Effect → Instance × List Effect
unfolding events_of without_events
hold_events false i es = (record i { held = i.held ++ events_of es }, without_events es)
hold_events true i es = (record i { held = [] }, map write_event i.held ++ es)

-- `RecordCancellation` for each public journey of an instance.
unfoldable pub cancellations : Bool → Observation → List JourneyKey → List Effect
cancellations cancelled o journeys =
    map
      (λ journey.
        record_cancellation
          (record { journey = journey; source = o.source; at = at o; cancelled = cancelled }))
      journeys

unfoldable pub is_cancelled : Instance → Bool
is_cancelled i = i.lifecycle == Lifecycle.cancelled

-- Seen running after all: a cancelled journey's calls start over.
unfoldable pub restore : Trip → Observation → Bool → Instance → Instance × List Effect
unfolding is_cancelled
restore trip o was_cancelled i =
    if was_cancelled && not (is_cancelled i)
    then (record i { calls = call_states trip }, cancellations false o (public i))
    else (i, [])

unfoldable pub status_of : Lifecycle → VehicleStatus
status_of Lifecycle.running = VehicleStatus.running
status_of Lifecycle.finished = VehicleStatus.layover
status_of _ = VehicleStatus.positioning

module _ (ctx : Context) where
  -- The timeline's part: progress and events of a journey that is not cancelled.
  unfoldable pub progress :
      FeedState
      → Observation
      → Binding
      → Trip
      → Instance
      → Raises (FeedState × Instance × List Effect)
  unfolding is_cancelled
  progress state o b trip i =
      if is_cancelled i
      then some (record state { instances = insert b.journey i state.instances }, i, [])
      else do
        advanced ← ctx.engine.advance i trip o (semantics_of ctx o)
        let held = hold_events b.confirmed advanced.0 advanced.1
        some (
          record state {
            instances = insert b.journey held.0 state.instances;
            dirty = add_dirty b.journey state.dirty;
          },
          held.0,
          held.1,
        )

  abbrev pub position_of : Option VehicleState → Option Position
  position_of none = none
  position_of (some v) = v.position

  -- What the vehicle that leads does to its journey.
  unfoldable pub drive :
      FeedState
      → Observation
      → VehicleId
      → Option VehicleState
      → Binding
      → Trip
      → Instance
      → Raises (FeedState × Instance × List Effect)
  unfolding restore is_cancelled
  drive state o vehicle previous b trip i = do
    s ← span ctx.zone ctx.index trip b.journey
    let led = with_lead i vehicle o
    let started = next_lifecycle ctx led trip o s.0 (position_of previous)
    let restored = restore trip o (is_cancelled led) started
    moved ← progress state o b trip restored.0
    some (moved.0, moved.1, restored.1 ++ moved.2)

  unfoldable pub moved_by :
      FeedState
      → Observation
      → VehicleId
      → Option VehicleState
      → Binding
      → Trip
      → Instance
      → Raises (FeedState × Instance × List Effect)
  moved_by state o vehicle previous b trip i =
      if leads ctx i vehicle o then drive state o vehicle previous b trip i else some (state, i, [])

  unfoldable pub follow :
      FeedState
      → Observation
      → VehicleId
      → Option VehicleState
      → Option TripKey
      → Option KeylessEpisode
      → Binding
      → List Effect
      → Raises (FeedState × List Effect)
  unfolding moved_by
  follow state o vehicle previous key episode b effects = do
    i ← lookup b.journey state.instances
    moved ← moved_by state o vehicle previous b (ctx.index.trip b.trip_id) i
    let status = status_of moved.1.lifecycle
    let recorded = vehicle_state moved.0 o vehicle status key (some b) none episode
    some (
      set_vehicle moved.0 o vehicle status key (some b) none episode,
      effects
          ++ moved.2
          ++ observation_result (record {
            observation = o;
            journey = some b.journey;
            reason = none;
            public = public moved.1;
            state_since = recorded.since;
          })
            ∷ [],
    )
