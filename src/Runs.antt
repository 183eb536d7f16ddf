-- ===== src/Runs.antt =====
-- Rail runs and their public journeys, and the schedule snapshots of an instance
-- (src/obehy/realtime/runs.py, and `Instance.public_call` of model.py).
use obehy.Prelude.{
  ℕ, suc, ◌+◌, ◌-◌, ◌/◌, ◌%◌, String, Bool, false, ◌&&◌, Option, none, some, List, [], ◌∷◌, ◌++◌,
  map, ◌==◌, string_eq, nat_beq, leb, if◌then◌else◌, or_else,
}
use obehy.Prelude.Lists.{length, get_elem?, take, drop, keep_if}
use obehy.Prelude.Raises.{Raises, ◌>>=◌}
use obehy.Model.Facts.{Instant, Date, Feed, Interval, EventKind}
use obehy.Model.Journey.{JourneyKey, JourneySpan, PartSpan, CallState, Instance}
use obehy.Model.Effects.{
  ScheduledCall, SnapshotJourney, continues_as, Effect, snapshot_journey, link_journeys,
}
use obehy.Index.{Call, TripPart, Trip, IndexView}

-- The middle of an interval: `timedelta / 2` rounds half to even.
unfoldable pub half_even : ℕ → ℕ
half_even d = if nat_beq (d % 2) 1 && nat_beq ((d / 2) % 2) 1 then d / 2 + 1 else d / 2

unfoldable pub middle : Interval → Instant
unfolding half_even
middle i = i.lo + half_even (i.hi - i.lo)

module _ (feed : Feed) (run : Trip) (day : Date) where
  -- The journey of a part: its train number's, else the run's (which asserts that it has a path).
  part_journey : TripPart → Raises JourneyKey
  part_journey part = elim part.train_number [
    | some number ↦
        some (record {
          feed = feed;
          namespace = "czptt:train_number";
          key = number;
          service_date = day;
        })
    | none ↦ (do
      path ← run.run_key
      some (record { feed = feed; namespace = "czptt:pa"; key = path; service_date = day }))
  ]

  same_number : JourneySpan → TripPart → Bool
  same_number span part = elim part.train_number [
    | none ↦ false
    | some number ↦ span.journey.key == number
  ]

  -- The loop of `journey_spans`, with the last span apart.
  spans_from : JourneySpan → List TripPart → Raises (List JourneySpan)
  unfolding part_journey same_number
  spans_from span [] = some (span ∷ [])
  spans_from span (part ∷ parts) =
      let extended = spans_from (record span { last = part.last }) parts in
      let opened = (do
        journey ← part_journey part
        rest ← spans_from (record { journey = journey; first = part.first; last = part.last }) parts
        some (span ∷ rest)) in
      if same_number span part then extended else opened

  unfoldable pub journey_spans : Raises (List JourneySpan)
  unfolding spans_from
  journey_spans = elim run.parts [
    | [] ↦ some []
    | part ∷ parts ↦ (do
      journey ← part_journey part
      spans_from (record { journey = journey; first = part.first; last = part.last }) parts)
  ]

unfoldable pub part_spans : Trip → List PartSpan
part_spans run =
    map (λ (p : TripPart). record { trip_id = p.trip_id; first = p.first; last = p.last }) run.parts

-- --- snapshots
module _ (index : IndexView) where
  occurrences : String → List Call → ℕ
  occurrences location [] = 0
  occurrences location (c ∷ cs) =
      let n = occurrences location cs in if c.location_id == location then suc n else n

  -- The calls of a snapshot; `before` are those numbered already.
  scheduled_calls : List Call → List Call → List ScheduledCall
  unfolding occurrences
  scheduled_calls before [] = []
  scheduled_calls before (c ∷ cs) =
      record {
        ordinal = suc (length before);
        location_id = c.location_id;
        visit_n = suc (occurrences c.location_id before);
        passenger_service = c.passenger_service;
        scheduled_arrival = c.arrival;
        scheduled_departure = c.departure;
        name = index.location_name c.location_id;
      }
      ∷ scheduled_calls (before ++ c ∷ []) cs

  snapshot_of : JourneyKey → Trip → ℕ → ℕ → String → Instant → Option String → SnapshotJourney
  unfolding scheduled_calls
  snapshot_of journey trip first last trip_id at run_key = record {
    journey = journey;
    at = at;
    release_id = index.release_id;
    trip_id = trip_id;
    route_name = trip.route_name;
    headsign = trip.headsign;
    calls = scheduled_calls [] (take (last + 1 - first) (drop first trip.calls));
    run_key = run_key;
    route_id = some trip.route_id;
    mode = some trip.mode;
    agency_id = trip.agency_id;
  }

  part_at : (TripPart → Bool) → List TripPart → Option String
  part_at test [] = none
  part_at test (p ∷ ps) = if test p then some p.trip_id else part_at test ps

  -- The journey's first part: the one that starts at its first call, else one that holds it.
  first_part : Trip → JourneySpan → String
  unfolding part_at
  first_part trip span = or_else (part_at (λ p. nat_beq p.first span.first) trip.parts) (
      or_else (part_at (λ p. leb p.first span.first && leb span.first p.last) trip.parts)
        trip.trip_id)

  links : List JourneySpan → List Effect
  links [] = []
  links (_ ∷ []) = []
  links (before ∷ after ∷ rest) =
      link_journeys
        (record { source = before.journey; target = after.journey; kind = continues_as })
      ∷ links (after ∷ rest)

  unfoldable pub snapshots : JourneyKey → List JourneySpan → Trip → Instant → List Effect
  unfolding snapshot_of first_part links
  snapshots journey [] trip at =
      snapshot_journey (snapshot_of journey trip 0 (length trip.calls - 1) trip.trip_id at none)
      ∷ []
  snapshots journey (s ∷ ss) trip at =
      map
        (λ (span : JourneySpan). snapshot_journey (
          snapshot_of span.journey trip span.first span.last (first_part trip span) at
            trip.run_key))
        (s ∷ ss)
      ++ links (s ∷ ss)

-- --- the public journey of a call
visits_to : String → List CallState → ℕ
visits_to location [] = 0
visits_to location (c ∷ cs) =
    let n = visits_to location cs in if c.location_id == location then suc n else n

first_or_last : EventKind → JourneySpan → List JourneySpan → JourneySpan
first_or_last EventKind.arrival s ss = s
first_or_last kind s [] = s
first_or_last kind s (t ∷ ss) = first_or_last kind t ss

span_call : Instance → ℕ → EventKind → CallState → List JourneySpan → Raises (JourneyKey × ℕ)
unfolding visits_to first_or_last
span_call i index kind call [] = some (i.journey, call.visit_n)
span_call i index kind call (s ∷ ss) =
    let span = first_or_last kind s ss in
    some (
      span.journey,
      visits_to call.location_id (take (index + 1 - span.first) (drop span.first i.calls)),
    )

-- `Instance.public_call`: at a call shared by two journeys the arrival is the earlier one's,
-- the rest the later's. A call out of range raises.
unfoldable pub public_call : Instance → ℕ → EventKind → Raises (JourneyKey × ℕ)
unfolding span_call
public_call i index kind = do
  call ← get_elem? i.calls index
  let spans = keep_if (λ (s : JourneySpan). leb s.first index && leb index s.last) i.journeys
  span_call i index kind call spans
