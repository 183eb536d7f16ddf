-- ===== src/Fusion/Resolve.antt =====
-- Which call a point event is at (`_resolve` of src/obehy/realtime/timeline/fusion.py, with its
-- helpers), and whether a source's position leads (`position_leads`).
use obehy.Prelude.{
  ℕ, suc, ◌+◌, ◌-◌, String, Bool, true, false, not, ◌&&◌, ◌||◌, Option, none, some, List, [], ◌∷◌,
  ◌++◌, ◌==◌, nat_eq, string_eq, ltb, leb, min, max, is_some, if◌then◌else◌,
}
use obehy.Prelude.Ints.{pos, negsuc}
use obehy.Prelude.Lists.{drop, contains}
use obehy.Model.Facts.{Instant, Interval, PointEvent}
use obehy.Model.Journey.{CallState, Progress, SourceTrack, Instance}
use obehy.Index.{Call, Trip, IndexView}
use obehy.Policy.{RailPolicy, rank}

-- Another source that ranks better has a fresh fix.
unfoldable pub outranks : RailPolicy → String → Instant → SourceTrack → Bool
outranks rail source at other = elim other.position_at [
  | none ↦ false
  | some position_at ↦
      not (other.source == source)
      && ltb (rank rail other.source) (rank rail source)
      && leb at (position_at + rail.position_fresh_s)
]

unfoldable pub leads_over : RailPolicy → String → Instant → List SourceTrack → Bool
unfolding outranks
leads_over rail source at [] = true
leads_over rail source at (other ∷ others) =
    let rest = leads_over rail source at others in
    if outranks rail source at other then false else rest

-- `position_leads`
unfoldable pub position_leads : Instance → String → Instant → RailPolicy → Bool
unfolding leads_over
position_leads i source at rail = leads_over rail source at i.sources

unfoldable pub has_realtime : CallState → Bool
has_realtime c =
    is_some c.arrival
    || is_some c.departure
    || is_some c.passed_arrival
    || is_some c.passed_departure

unfoldable pub furthest : ℕ → ℕ → List CallState → ℕ
unfolding has_realtime
furthest reached n [] = reached
furthest reached n (c ∷ cs) =
    furthest (if has_realtime c then max reached n else reached) (suc n) cs

unfoldable pub call_reached : Option Progress → ℕ
call_reached none = 0
call_reached (some progress) = elim progress.call_index [ pos n ↦ n | negsuc _ ↦ 0 ]

-- `_frontier`
unfoldable pub frontier : Instance → ℕ
unfolding furthest call_reached
frontier i = furthest (call_reached i.progress) 0 i.calls

-- `_start`: a number that would be negative is 0.
unfoldable pub start_call : Instance → Option SourceTrack → ℕ
unfolding frontier
start_call i none = frontier i - 1
start_call i (some previous) = elim previous.point [ some n ↦ n | none ↦ frontier i - 1 ]

unfoldable pub latest_of : Option Instant → Option Instant → Option Instant
latest_of none b = b
latest_of (some a) none = some a
latest_of (some a) (some b) = some (max a b)

unfoldable pub soonest_of : Option Instant → Option Instant → Option Instant
soonest_of none b = b
soonest_of (some a) none = some a
soonest_of (some a) (some b) = some (min a b)

-- The event at call `n` is not before the times of an earlier call `j`, nor after a later one's.
unfoldable pub fits : ℕ → Interval → RailPolicy → ℕ → CallState → Bool
unfolding latest_of soonest_of
fits n actual rail j c =
    if ltb j n
    then elim (latest_of c.passed_arrival c.passed_departure) [
      | none ↦ true
      | some t ↦ not (ltb (actual.hi + rail.event_tolerance_s) t)
    ]
    else if ltb n j
    then elim (soonest_of c.passed_arrival c.passed_departure) [
      | none ↦ true
      | some t ↦ not (ltb (t + rail.event_tolerance_s) actual.lo)
    ]
    else true

unfoldable pub all_fit : ℕ → Interval → RailPolicy → ℕ → List CallState → Bool
unfolding fits
all_fit n actual rail j [] = true
all_fit n actual rail j (c ∷ cs) =
    let rest = all_fit n actual rail (suc j) cs in if fits n actual rail j c then rest else false

-- `_consistent`
unfoldable pub consistent : Instance → ℕ → Interval → RailPolicy → Bool
unfolding all_fit
consistent i n actual rail = all_fit n actual rail 0 i.calls

unfoldable pub is_coded : IndexView → List String → Call → Bool
is_coded index codes c = elim (index.location_key c.location_id "sr70") [
  | none ↦ false
  | some key ↦ contains key codes
]

-- A call with one of the codes was found, if it is only later ones that fit or none does.
unfoldable pub also_found : Option ℕ × Bool → Option ℕ × Bool
also_found (some n, found) = (some n, found)
also_found (none, found) = (none, true)

unfoldable pub resolve_from :
    IndexView → Instance → List String → Interval → RailPolicy → ℕ → List Call → Option ℕ × Bool
unfolding is_coded also_found
resolve_from index i codes actual rail n [] = (none, false)
resolve_from index i codes actual rail n (c ∷ cs) =
    let rest = resolve_from index i codes actual rail (suc n) cs in
    if not (is_coded index codes c)
    then rest
    else if consistent i n actual rail
    then (some n, false)
    else also_found rest

-- `_resolve`
unfoldable pub resolve_point :
    IndexView → Instance → Trip → ℕ → List String → Interval → RailPolicy → Option ℕ × Bool
unfolding resolve_from
resolve_point index i trip start codes actual rail =
    resolve_from index i codes actual rail start (drop start trip.calls)

unfoldable pub codes_of : PointEvent → Option SourceTrack → List String
codes_of event none = event.codes
codes_of event (some previous) = elim previous.next_point [
  | none ↦ event.codes
  | some hint ↦ elim hint.sr70 [
    | none ↦ event.codes
    | some sr70 ↦ if hint.name == event.name then event.codes ++ sr70 ∷ [] else event.codes
  ]
]
