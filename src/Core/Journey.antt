-- ===== src/Core/Journey.antt =====
-- A journey's instance: `_open`, `_lifecycle`, `_seen_starting`, `_missed_departure` and `_leads`
-- of core.py.
use obehy.Prelude.{
  ◌+◌, Bool, true, false, ◌&&◌, ◌||◌, Option, none, some, List, [], ◌==◌, string_eq, nat_eq, ltb,
  leb, nat_beq, if◌then◌else◌,
}
use obehy.Prelude.Raises.{Raises, ◌>>=◌}
use obehy.Prelude.Dict.{insert, has}
use obehy.Model.Facts.{
  Instant, Position, Observation, at, first, as_source_state, as_source_departure, as_position,
}
use obehy.Model.Journey.{VehicleId, vehicle_id_eq, journey_key_eq, Lifecycle, JourneySpan, Instance}
use obehy.Model.State.{FeedState}
use obehy.Model.Effects.{Effect}
use obehy.Index.{Trip}
use obehy.Keyed.{Match}
use obehy.Runs.{journey_spans, part_spans, snapshots}
use obehy.Fusion.{lead_of}
use obehy.Core.Context.{Context}
use obehy.Core.Binding.{call_states, lifecycle_eq}

module _ (ctx : Context) where
  unfoldable pub new_instance : Match → Observation → List JourneySpan → Instance
  new_instance m o spans = record {
    journey = m.journey;
    release_id = ctx.index.release_id;
    trip_id = m.trip.trip_id;
    mode = m.trip.mode;
    lifecycle = Lifecycle.pre_trip;
    calls = call_states m.trip;
    freshness = record { updated_at = at o; heard_at = o.received_at; stale = false; lost = false };
    progress = none;
    track = none;
    delay_s = none;
    off_route_since = none;
    off_route = false;
    lead = none;
    journeys = spans;
    parts = part_spans m.trip;
    sources = [];
    track_source = none;
    shown_source = none;
    published = none;
    held = [];
  }

  -- `_open`: the journey's instance on first binding, with its schedule snapshots.
  unfoldable pub open_journey : FeedState → Match → Observation → Raises (FeedState × List Effect)
  unfolding new_instance
  open_journey state m o = if has m.journey state.instances then some (state, []) else do
    spans ← journey_spans ctx.index.feed m.trip m.journey.service_date
    some (
      record state { instances = insert m.journey (new_instance m o spans) state.instances },
      snapshots ctx.index m.journey spans m.trip (at o),
    )

  -- A vehicle that says it runs has started at the first stop, or seen moving past it.
  seen_starting : Instance → Trip → Observation → Option Position → Bool
  seen_starting i trip o previous = elim (first as_position o) [
    | none ↦ true
    | some p ↦ ctx.engine.at_origin_or_moving i.journey trip previous p (at o)
  ]

  -- The source plans the same departure on a later day, after the scheduled start.
  same_departure_later : Instant → Instant → Bool
  same_departure_later planned start =
      let later = ctx.zone.read planned in
      let scheduled = ctx.zone.read start in ltb scheduled.0 later.0 && nat_beq later.1 scheduled.1

  missed_departure : Instance → Trip → Observation → Instant → Bool
  unfolding same_departure_later
  missed_departure i trip o start = elim (first as_source_departure o) [
    | none ↦ false
    | some planned ↦ (elim (first as_position o) [
      | none ↦ false
      | some p ↦
          leb start (at o)
          && same_departure_later planned start
          && ctx.engine.past_first_stop i.journey trip p
    ])
  ]

  has_started : Instance → Trip → Observation → Instant → Option Position → Bool
  unfolding seen_starting missed_departure
  has_started i trip o start previous = elim (first as_source_state o) [
    | none ↦ leb start (at o)
    | some code ↦
        code == "running" && seen_starting i trip o previous || missed_departure i trip o start
  ]

  may_start : Lifecycle → Bool
  may_start Lifecycle.pre_trip = true
  may_start Lifecycle.cancelled = true
  may_start _ = false

  -- `_lifecycle`
  unfoldable pub next_lifecycle :
      Instance → Trip → Observation → Instant → Option Position → Instance
  unfolding has_started may_start
  next_lifecycle i trip o start previous =
      if may_start i.lifecycle && has_started i trip o start previous
      then record i { lifecycle = Lifecycle.running }
      else i

  -- `_leads`: the vehicle drives its source's contribution to the journey.
  unfoldable pub leads : Instance → VehicleId → Observation → Bool
  leads i vehicle o = elim (lead_of i vehicle.source) [
    | none ↦ true
    | some lead ↦
        lead.vehicle == vehicle || ltb (lead.seen + ctx.policy.rail.position_fresh_s) (at o)
  ]
