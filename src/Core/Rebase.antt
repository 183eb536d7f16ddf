-- ===== src/Core/Rebase.antt =====
-- Live journeys move onto a newly activated release: `rebase` and `resolve` of core.py.
use obehy.Prelude.{
  String, Bool, true, false, ◌&&◌, Option, none, some, List, [], ◌∷◌, ◌++◌, map, ◌==◌, nat_eq,
  string_eq, leb, if◌then◌else◌, or_else,
}
use obehy.Prelude.Sort.{sort_by}
use obehy.Prelude.Raises.{Raises, ◌>>=◌}
use obehy.Prelude.Dict.{Dict, lookup, filter_map}
use obehy.Model.Facts.{Feed}
use obehy.Model.Journey.{
  VehicleId, vehicle_id_eq, JourneyKey, journey_key_eq, Reason, Binding, CallState, JourneySpan,
  Instance,
}
use obehy.Model.State.{VehicleStatus, VehicleState, FeedState, add_dirty}
use obehy.Model.Effects.{Effect}
use obehy.Index.{KeyEntry, valid_on, Trip, IndexView}
use obehy.Runs.{journey_spans, part_spans, snapshots}
use obehy.Prelude.Texts.{str_lt}
use obehy.Core.Binding.{call_states}

feed_text : Feed → String
feed_text Feed.jdf = "jdf"
feed_text Feed.czptt = "czptt"

-- The order of journey keys: by feed, namespace, key and service date.
key_le : JourneyKey → JourneyKey → Bool
unfolding feed_text
key_le a b =
    if str_lt (feed_text a.feed) (feed_text b.feed)
    then true
    else if str_lt (feed_text b.feed) (feed_text a.feed)
    then false
    else if str_lt a.namespace b.namespace
    then true
    else if str_lt b.namespace a.namespace
    then false
    else if str_lt a.key b.key
    then true
    else if str_lt b.key a.key
    then false
    else leb a.service_date b.service_date

module _ (index : IndexView) where
  runs_there : KeyEntry → JourneyKey → Bool
  runs_there e journey =
      valid_on e journey.service_date
      && index.runs_on (index.trip e.public_id).service_id journey.service_date

  resolve_in : JourneyKey → List KeyEntry → Option Trip
  unfolding runs_there
  resolve_in journey [] = none
  resolve_in journey (e ∷ es) =
      if runs_there e journey
      then some (index.run (index.trip e.public_id) journey.service_date)
      else resolve_in journey es

  -- `resolve`: the trip that a journey's key names on its service date, if it runs.
  unfoldable pub resolve : JourneyKey → Option Trip
  unfolding resolve_in
  resolve journey = resolve_in journey (index.keys journey.namespace journey.key)

  unfoldable pub same_place : CallState → CallState → Bool
  same_place a b = a.location_id == b.location_id && a.visit_n == b.visit_n

  -- The old call at the place of a fresh one: of several, the last.
  unfoldable pub find_place : List CallState → CallState → Option CallState
  unfolding same_place
  find_place [] fresh = none
  find_place (c ∷ cs) fresh = elim (find_place cs fresh) [
    | some later ↦ some later
    | none ↦ if same_place c fresh then some c else none
  ]

  -- A call of the new schedule with what was observed there.
  unfoldable pub moved_call : List CallState → CallState → CallState
  unfolding find_place
  moved_call old fresh = record (or_else (find_place old fresh) fresh) {
    sequence = fresh.sequence;
    passenger = fresh.passenger;
  }

  spans_of : Trip → JourneyKey → Raises (List JourneySpan)
  spans_of trip journey = journey_spans index.feed trip journey.service_date

  unfoldable pub moved_instance : JourneyKey → Trip → Instance → Instance
  unfolding moved_call spans_of
  moved_instance journey trip i = record i {
    release_id = index.release_id;
    trip_id = trip.trip_id;
    calls = map (moved_call i.calls) (call_states trip);
    progress = none;
    track = none;
    journeys = or_else (spans_of trip journey) [];
    parts = part_spans trip;
  }

  unfoldable pub rebased : JourneyKey → Instance → Option Instance
  unfolding moved_instance
  rebased journey i = elim (resolve journey) [
    | none ↦ none
    | some trip ↦ some (moved_instance journey trip i)
  ]

  -- The new snapshots, journey by journey in the order of their keys; a run whose spans cannot
  -- be built raises.
  snapshots_of : JourneyKey → Instance → Raises (List Effect)
  unfolding spans_of
  snapshots_of journey i = elim (resolve journey) [
    | none ↦ some []
    | some trip ↦ (do
      spans ← spans_of trip journey
      some (snapshots index journey spans trip i.freshness.updated_at))
  ]

  unfoldable pub all_snapshots : Dict JourneyKey Instance → Raises (List Effect)
  unfolding snapshots_of
  all_snapshots [] = some []
  all_snapshots ((journey, i) ∷ rest) = do
    first ← snapshots_of journey i
    more ← all_snapshots rest
    some (first ++ more)

  unfoldable pub before : JourneyKey × Instance → JourneyKey × Instance → Bool
  unfolding key_le
  before a b = key_le a.0 b.0

  unfoldable pub rebound : Dict JourneyKey Instance → VehicleState → Binding → VehicleState
  rebound instances v b = elim (lookup b.journey instances) [
    | some i ↦ record v { binding = some (record b { trip_id = i.trip_id }) }
    | none ↦ record v {
      status = VehicleStatus.unmatched;
      binding = none;
      reason = some Reason.no_trip;
    }
  ]

  -- A vehicle follows its journey to the new trip, or is unbound with it.
  unfoldable pub rebase_vehicle :
      Dict JourneyKey Instance → VehicleId → VehicleState → Option VehicleState
  unfolding rebound
  rebase_vehicle instances vehicle v = elim v.binding [
    | none ↦ some v
    | some b ↦ some (rebound instances v b)
  ]

  add_keys : Dict JourneyKey Instance → List JourneyKey → List JourneyKey
  add_keys [] dirty = dirty
  add_keys ((journey, _) ∷ rest) dirty = add_keys rest (add_dirty journey dirty)

  -- `rebase`
  unfoldable pub rebase : FeedState → Raises (FeedState × List Effect)
  unfolding all_snapshots before add_keys
  rebase state = do
    effects ← all_snapshots (sort_by before state.instances)
    let instances = filter_map rebased state.instances
    some (
      record state {
        vehicles = filter_map (rebase_vehicle instances) state.vehicles;
        instances = instances;
        dirty = add_keys instances state.dirty;
      },
      effects,
    )
