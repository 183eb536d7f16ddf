-- ===== src/Keyed.antt =====
-- Keyed binding (src/obehy/realtime/infer/keyed.py): a literal source key and the time of an
-- observation choose one journey.
pub mod Nearest
pub mod Sound
pub mod Examples
use Prim.Native.Char.{code}
use Prim.Native.String
use obehy.Prelude.{
  ℕ, ◌+◌, ◌-◌, String, Bool, not, ◌&&◌, ◌||◌, Option, none, some, List, [], ◌∷◌, ◌++◌, map, ◌==◌,
  nat_eq, string_eq, ltb, leb, nat_beq, if◌then◌else◌,
}
use obehy.Prelude.Lists.{contains, keep_if}
use obehy.Prelude.Sort.{sort_by}
use obehy.Prelude.Raises.{Raises, ◌>>=◌}
use obehy.Model.Facts.{Instant, Date, TripKey}
use obehy.Model.Journey.{JourneyKey, journey_key_eq, Reason}
use obehy.Index.{KeyEntry, valid_on, Trip, start, end, IndexView}
use obehy.Policy.{TimePolicy, by_mode}
use obehy.Times.{Zone, instant, candidate_service_dates}

pub record Match : Type 0 where
  pub journey : JourneyKey
  pub trip : Trip
  pub start_at : Instant
  pub end_at : Instant

-- `Match | Reason`
pub data Outcome : Type 0 where
  found : Match → Outcome
  refused : Reason → Outcome

module _ (policy : TimePolicy) (at : Instant) where
  -- `start - pre_trip <= at <= end + max_delay`, the first term moved to the right.
  unfoldable pub in_window : Match → Bool
  in_window m =
      leb m.start_at (at + by_mode policy.pre_trip_s m.trip.mode)
      && leb at (m.end_at + by_mode policy.max_delay_s m.trip.mode)

  unfoldable pub distance : Match → ℕ
  distance m =
      if ltb at m.start_at then m.start_at - at else if ltb m.end_at at then at - m.end_at else 0

  -- The key that the admissible journeys are sorted by: (distance, service date).
  unfoldable pub nearer : Match → Match → Bool
  nearer a b =
      ltb (distance a) (distance b)
      || nat_beq (distance a) (distance b) && leb a.journey.service_date b.journey.service_date

  choose_first : List Match → Outcome
  choose_first [] = refused Reason.not_in_service
  choose_first (m ∷ []) = found m
  choose_first (m ∷ n ∷ _) =
      if nat_beq (distance m) (distance n) then refused Reason.ambiguous else found m

  -- The end of `bind`: the nearest of the journeys that run, if they are in their window.
  unfoldable pub select : List Match → Outcome
  unfolding choose_first
  select [] = refused Reason.not_active
  select (m ∷ ms) = choose_first (sort_by nearer (keep_if in_window (m ∷ ms)))

-- The part of a key before its first colon.
before_colon : String → Option String
before_colon String.[] = none
before_colon (String.◌∷◌ c s) =
    let rest = before_colon s in
    if nat_beq (code c) b':'
    then some String.[]
    else elim rest [ none ↦ none | some p ↦ some (String.◌∷◌ c p) ]

-- `parent_ref` of index.py: the line that a line-and-trip key belongs to.
unfoldable pub parent_ref : String → String → Option (String × String)
unfolding before_colon
parent_ref namespace key =
    if namespace == "cis:line_trip"
    then (elim (before_colon key) [ none ↦ none | some line ↦ some ("cis:line", line) ])
    else none

-- The two loops of `bind`, as one list: each candidate date with each entry.
abbrev pub pairs : List Date → List KeyEntry → List (Date × KeyEntry)
pairs [] entries = []
pairs (d ∷ ds) entries = map (λ e. (d, e)) entries ++ pairs ds entries

pub data Visit : Type 0 where
  skip two_versions : Visit
  add : List JourneyKey → Match → Visit

pub data Collected : Type 0 where
  ambiguous_run : Collected
  matches : List Match → Collected

module _ (zone : Zone) (index : IndexView) where
  -- `span`
  unfoldable pub span : Trip → JourneyKey → Raises (Instant × Instant)
  span trip journey = do
    s ← start trip
    e ← end trip
    let day = journey.service_date
    some (
      instant zone (record { service_date = day; seconds = s }),
      instant zone (record { service_date = day; seconds = e }),
    )

  unfoldable pub match_of : JourneyKey → Trip → Raises Match
  unfolding span
  match_of journey trip = do
    s ← span trip journey
    some (record { journey = journey; trip = trip; start_at = s.0; end_at = s.1 })

  -- `run_journey` of runs.py: a run is keyed by its path on its service date; the assertion
  -- that it has one raises.
  unfoldable pub run_journey : Trip → Date → Raises JourneyKey
  run_journey run day = do
    path ← run.run_key
    some (record { feed = index.feed; namespace = "czptt:pa"; key = path; service_date = day })

  -- One pass of the loop of `bind`, at a candidate date and an entry of the key.
  unfoldable pub visit : TripKey → List JourneyKey → Date → KeyEntry → Raises Visit
  unfolding match_of run_journey
  visit key seen day entry =
      if not (valid_on entry day)
      then some skip
      else (let trip = index.trip entry.public_id in
          if not (index.runs_on trip.service_id day) then some skip else elim trip.run_key [
            | none ↦ (do
              m ←
                  match_of
                    (record {
                      feed = index.feed;
                      namespace = key.namespace;
                      key = key.key;
                      service_date = day;
                    })
                    trip
              some (add seen m))
            | some _ ↦
                (let run = index.run trip day in
                  elim run.parts [
                    | [] ↦ some two_versions
                    | _ ∷ _ ↦ (do
                      journey ← run_journey run day
                      if contains journey seen
                          then some skip
                          else do m ← match_of journey run; some (add (journey ∷ seen) m))
                  ])
          ])

  unfoldable pub collect :
      TripKey → List JourneyKey → List Match → List (Date × KeyEntry) → Raises Collected
  collect key seen running [] = some (matches running)
  collect key seen running ((day, entry) ∷ rest) = elim (visit key seen day entry) [
    | none ↦ none
    | some skip ↦ collect key seen running rest
    | some two_versions ↦ some ambiguous_run
    | some (add seen' m) ↦ collect key seen' (running ++ m ∷ []) rest
  ]

  abbrev pub dates : Instant → Option Date → List Date
  dates at none = candidate_service_dates zone at
  dates at (some day) = day ∷ []

  no_entries : TripKey → Outcome
  unfolding parent_ref
  no_entries key = elim (parent_ref key.namespace key.key) [
    | none ↦ refused Reason.no_trip
    | some (namespace, line) ↦ (elim (index.keys namespace line) [
      | [] ↦ refused Reason.no_line
      | _ ∷ _ ↦ refused Reason.no_trip
    ])
  ]

  settle : TimePolicy → Instant → Collected → Outcome
  settle policy at ambiguous_run = refused Reason.ambiguous
  settle policy at (matches running) = select policy at running

  unfoldable pub bind : TimePolicy → TripKey → Instant → Option Date → Raises Outcome
  unfolding no_entries settle
  bind policy key at day = elim (index.keys key.namespace key.key) [
    | [] ↦ some (no_entries key)
    | e ∷ es ↦ (do
      collected ← collect key [] [] (pairs (dates at day) (e ∷ es))
      some (settle policy at collected))
  ]
