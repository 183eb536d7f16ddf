-- ===== src/Fusion/Points.antt =====
-- The point events of sources (`apply_point` of src/obehy/realtime/timeline/fusion.py, with its
-- helpers).
use obehy.Prelude.{
  ℕ, ◌-◌, String, Bool, true, false, ◌&&◌, ◌||◌, Option, none, some, List, [], ◌∷◌, ◌==◌, nat_eq,
  string_eq, is_some, if◌then◌else◌,
}
use obehy.Prelude.Ints.{ltz, lez, less, maxz}
use obehy.Prelude.Lists.{length, get_elem?, keep_if}
use obehy.Prelude.Raises.{Raises, ◌>>=◌}
use obehy.Model.Facts.{Instant, Float, Interval, EventKind, PointEvent, Fact, Observation, first}
use obehy.Model.Journey.{CallState, Track, Progress, SourceTrack, Instance, Lifecycle, EventMethod}
use obehy.Model.Effects.{UnresolvedKind, Effect}
use obehy.Index.{Call, Trip, IndexView}
use obehy.Policy.{RailPolicy, ProgressPolicy}
use obehy.Platforms.{set_call}
use obehy.Runs.{middle, public_call}
use obehy.Timeline.Estimate.{merge}
use obehy.Timeline.Timetable.{Plan, call_index_at}
use obehy.Fusion.{source_track, with_track}
use obehy.Fusion.Resolve.{start_call, resolve_point, codes_of}

unfoldable pub as_point_event : Fact → Option PointEvent
as_point_event (Fact.point_event e) = some e
as_point_event _ = none

-- `anchor`
unfoldable pub anchor : Option Track → Float → ProgressPolicy → Option Track
anchor none along policy = none
anchor (some track) along policy = some (record track {
  hypotheses = keep_if (λ h. lez (less along policy.jitter_m) h.along_m) track.hypotheses;
  committed_m = maxz track.committed_m along;
})

unfoldable pub kind_of : PointEvent → Call → ℕ → ℕ → EventKind
kind_of event call n last =
    if event.standing
    then EventKind.arrival
    else if call.passenger_service || n == 0 || n == last
    then EventKind.departure
    else EventKind.passage

abbrev pub is_arrival : EventKind → Bool
is_arrival EventKind.arrival = true
is_arrival _ = false

-- The event of a call that a point of the kind is merged with.
unfoldable pub event_of : EventKind → CallState → Option Interval
event_of EventKind.arrival c = c.arrival
event_of _ c = c.departure

unfoldable pub with_event : EventKind → Interval → CallState → CallState
with_event EventKind.arrival merged c = record c {
  arrival = some merged;
  passed_arrival = some (middle merged);
}
with_event EventKind.departure merged c = record c {
  departure = some merged;
  passed_departure = some (middle merged);
}
with_event EventKind.passage merged c = record c {
  departure = some merged;
  passed_departure = some (middle merged);
  passed_arrival = if is_some c.arrival then c.passed_arrival else some (middle merged);
}

-- Where the event lies: its trigger, else the call.
unfoldable pub along_of : Plan → ℕ → EventKind → Raises Float
along_of plan n kind = get_elem? plan.zones n >>= λ zone.
    elim (if is_arrival kind then zone.arrival_m else zone.departure_m) [
      | some along ↦ some along
      | none ↦ get_elem? plan.call_distances_m n
    ]

unfoldable pub progress_to : Plan → Float → Instant → Option Progress → Option Progress
progress_to plan along at none =
    some (record { distance_m = along; call_index = call_index_at plan along; at = at })
progress_to plan along at (some progress) =
    if ltz progress.distance_m along
    then some (record { distance_m = along; call_index = call_index_at plan along; at = at })
    else some progress

unfoldable pub lifecycle_at : Lifecycle → Bool → Lifecycle
lifecycle_at lifecycle true = Lifecycle.finished
lifecycle_at Lifecycle.pre_trip false = Lifecycle.running
lifecycle_at lifecycle false = lifecycle

unfoldable pub note_point : ℕ → String → Instance → Instance
note_point n source i = elim (source_track i source) [
  | none ↦ i
  | some track ↦ with_track i (record track { point = some n })
]

unfoldable pub same_interval : Option Interval → Interval → Bool
same_interval none b = false
same_interval (some a) b = a.lo == b.lo && a.hi == b.hi

-- The event to write, if it is not a repeat of the one recorded.
unfoldable pub report_point :
    Observation
    → Call
    → ℕ
    → EventKind
    → Interval
    → Instance
    → Bool
    → Raises (Instance × List Effect)
report_point o call n kind merged moved true = some (moved, [])
report_point o call n kind merged moved false = public_call moved n kind >>= λ place. some (
  moved,
  Effect.write_event (record {
    journey = place.0;
    location_id = call.location_id;
    visit_n = place.1;
    kind = kind;
    interval = merged;
    method = EventMethod.source;
    source = o.source;
  })
      ∷ [],
)

module _ (plan : Plan) (progress_policy : ProgressPolicy) (rail : RailPolicy) where
  -- The instance with the event at call `n`, which lies at `along`.
  unfoldable pub with_point :
      Observation
      → PointEvent
      → ℕ
      → ℕ
      → EventKind
      → CallState
      → Interval
      → Float
      → Instance
      → Instance
  unfolding note_point set_call with_event progress_to anchor lifecycle_at
  with_point o event n last kind state merged along i = note_point n o.source (record i {
    calls = set_call i.calls n (with_event kind merged state);
    progress = progress_to plan along event.actual.lo i.progress;
    track = anchor i.track along progress_policy;
    lifecycle = lifecycle_at i.lifecycle (is_arrival kind && n == last);
  })

  -- The event at call `n` of the trip.
  unfoldable pub place_point :
      Trip → Observation → PointEvent → ℕ → Instance → Raises (Instance × List Effect)
  unfolding with_point event_of kind_of along_of same_interval report_point
  place_point trip o event n i = get_elem? trip.calls n >>= λ call. get_elem? i.calls n >>= λ state.
      let last = length trip.calls - 1 in
      let kind = kind_of event call n last in
      let merged = merge (event_of kind state) event.actual true rail in
      along_of plan n kind >>= λ along.
      let moved = with_point o event n last kind state merged along i in
      report_point o call n kind merged moved (same_interval (event_of kind state) merged)

  unfoldable pub unresolved_point : Observation → PointEvent → Bool → Effect
  unresolved_point o event misfit = Effect.unresolved (record {
    observation = o;
    kind = if misfit then UnresolvedKind.inconsistent else UnresolvedKind.point;
    name = event.name;
  })

  -- What follows from where the event was found.
  unfoldable pub settle_point :
      Trip → Observation → PointEvent → Instance → Option ℕ × Bool → Raises (Instance × List Effect)
  unfolding place_point unresolved_point
  settle_point trip o event i (none, misfit) = some (i, unresolved_point o event misfit ∷ [])
  settle_point trip o event i (some n, misfit) =
      if n == 0 && event.standing then some (i, []) else place_point trip o event n i

  -- `apply_point`
  unfoldable pub apply_point :
      IndexView
      → Trip
      → Observation
      → Option SourceTrack
      → Instance
      → Raises (Instance × List Effect)
  unfolding resolve_point start_call codes_of settle_point as_point_event
  apply_point index trip o previous i = elim (first as_point_event o) [
    | none ↦ some (i, [])
    | some event ↦ settle_point trip o event i (
        resolve_point index i trip (start_call i previous) (codes_of event previous) event.actual
          rail)
  ]
