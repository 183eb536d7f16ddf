-- ===== src/Timeline/Timetable.antt =====
-- The timetable laid on a path (`Window`, `Timetable` and `Plan` of
-- src/obehy/realtime/timeline/plan.py). A lateness is a signed count of microseconds.
use obehy.Prelude.{
  suc, ℕ, ◌+◌, ◌-◌, ◌*◌, Bool, true, false, ◌&&◌, Option, none, some, List, [], ◌∷◌, ltb, leb,
  if◌then◌else◌,
}
use obehy.Prelude.Ints.{pos, lez, above, minus, rounded, ℤ, negsuc, ltz}
use obehy.Prelude.Lists.{get_elem?}
use obehy.Prelude.Raises.{Raises, ◌>>=◌}
use obehy.Model.Facts.{Instant, Float, EventKind}

-- Where a call's arrival and departure trigger; none where it has no such trigger.
pub record StopZone : Type 0 where
  pub arrival_m : Option Float
  pub departure_m : Option Float

pub record Trigger : Type 0 where
  pub along_m : Float
  pub call : ℕ
  pub kind : EventKind

-- When the timetable has the vehicle at a place; none is unbounded.
pub record Window : Type 0 where
  pub earliest : Option Instant
  pub latest : Option Instant

unfoldable pub is_before : Option Instant → Instant → Bool
is_before none at = false
is_before (some earliest) at = ltb at earliest

unfoldable pub is_after : Option Instant → Instant → Bool
is_after none at = false
is_after (some latest) at = ltb latest at

abbrev pub or_instant : Option Instant → Instant → Instant
or_instant none at = at
or_instant (some bound) at = bound

-- `Window.lateness_s`
unfoldable pub window_lateness : Window → Instant → Float
unfolding is_before is_after
window_lateness window at =
    if is_before window.earliest at
    then minus at (or_instant window.earliest at)
    else if is_after window.latest at
    then minus at (or_instant window.latest at)
    else pos 0

-- `Window.clamp`
unfoldable pub clamp : Window → Instant → Instant
unfolding is_before is_after
clamp window at =
    if is_before window.earliest at
    then or_instant window.earliest at
    else if is_after window.latest at
    then or_instant window.latest at
    else at

-- A call's stretch of path and its window there; none stands for an infinite distance.
pub record Span : Type 0 where
  pub start_m : Option Float
  pub end_m : Option Float
  pub window : Window

abbrev pub Scheduled : Type 0
Scheduled = List (Option Instant × Option Instant)

unfoldable pub first_of : Option Instant → Option Instant → Option Instant
first_of none b = b
first_of (some a) b = some a

-- The start of a call's window: visits in a row at one point share the first's.
unfoldable pub earliest_of :
    Option (Float × Span) → Float → Option Instant → Option Instant → Option Instant
unfolding first_of
earliest_of none distance arrival departure = none
earliest_of (some (before, span)) distance arrival departure =
    if lez before distance && lez distance before
    then span.window.earliest
    else first_of arrival departure

-- `Timetable.__init__`: the loop over the calls, after the call before and its span.
unfoldable pub spans_from :
    Option (Float × Span) → List Float → Scheduled → List StopZone → Raises (List Span)
unfolding earliest_of first_of
spans_from last (d ∷ ds) ((arrival, departure) ∷ scheduled) (zone ∷ zones) =
    let window : Window = record {
      earliest = earliest_of last d arrival departure;
      latest = first_of departure arrival;
    } in
    let span : Span = record {
      start_m = zone.arrival_m;
      end_m = zone.departure_m;
      window = window;
    } in
    spans_from (some (d, span)) ds scheduled zones >>= λ spans. some (span ∷ spans)
-- The first call reads no distance.
spans_from none [] ((arrival, departure) ∷ []) (zone ∷ []) = some (
    record {
      start_m = zone.arrival_m;
      end_m = zone.departure_m;
      window = record { earliest = none; latest = first_of departure arrival };
    }
    ∷ [])
spans_from last [] ((arrival, departure) ∷ scheduled) (zone ∷ zones) = none
spans_from last distances [] [] = some []
spans_from last distances [] (zone ∷ zones) = none
spans_from last distances (times ∷ scheduled) [] = none

-- The last span that starts at or before the distance, else the first, and the one after it.
unfoldable pub span_at : Float → Span → List Span → Span × Option Span
span_at along span [] = (span, none)
span_at along span (next ∷ spans) = elim next.start_m [
  | none ↦ span_at along next spans
  | some start ↦
      let rest = span_at along next spans in if lez start along then rest else (span, some next)
]

unfoldable pub reaches : Option Float → Float → Bool
reaches none along = true
reaches (some start) along = lez start along

unfoldable pub within : Float → Option Float → Bool
within along none = true
within along (some end) = lez along end

-- Between two calls: by distance, from the first's end to the next's start.
unfoldable pub share_of : Float → Option Float → Option Float → Instant → ℕ
share_of along (some end) (some start) span =
    if lez start end then 0 else rounded (span * above along end) (above start end)
share_of along end start span = 0

unfoldable pub between_calls : Float → Span → Span → Option Window
unfolding share_of
between_calls along span next = elim span.window.latest [
  | none ↦ none
  | some leave ↦ elim next.window.earliest [
    | none ↦ none
    | some reach ↦
        let planned : Instant =
          if leb leave reach
          then leave + share_of along span.end_m next.start_m (reach - leave)
          else leave - share_of along span.end_m next.start_m (leave - reach) in
        some (record { earliest = some planned; latest = some planned })
  ]
]

unfoldable pub window_in : Float → Span × Option Span → Option Window
unfolding reaches within between_calls
window_in along (span, next) =
    let here : Option Window =
      if reaches span.start_m along
      then some span.window
      else some (record { earliest = none; latest = span.window.latest }) in
    elim next [
      | none ↦ here
      | some after ↦ if within along span.end_m then here else between_calls along span after
    ]

-- `Timetable.window`
unfoldable pub window_of : List Span → Float → Option Window
unfolding window_in span_at
window_of [] along = none
window_of (span ∷ spans) along = window_in along (span_at along span spans)

-- `Timetable.planned`
unfoldable pub planned : List Span → Instant → Float → Option Instant
unfolding window_of clamp
planned spans at along = elim (window_of spans along) [
  | none ↦ none
  | some window ↦ some (clamp window at)
]

-- `Timetable.lateness_s`
unfoldable pub lateness : List Span → Instant → Float → Float
unfolding window_of window_lateness
lateness spans at along = elim (window_of spans along) [
  | none ↦ pos 0
  | some window ↦ window_lateness window at
]

-- A journey's times at its calls, its timetable on the path, and its triggers in path order.
pub record Plan : Type 0 where
  -- `path.call_distances_m`
  pub call_distances_m : List Float
  pub zones : List StopZone
  pub scheduled : Scheduled
  pub timetable : List Span
  pub triggers : List Trigger

-- The triggers up to a distance: what `bisect_right` finds in a list in order.
unfoldable pub upto : Float → List Trigger → List Trigger
upto end [] = []
upto end (t ∷ ts) = let rest = upto end ts in if lez t.along_m end then t ∷ rest else []

unfoldable pub beyond : Float → List Trigger → List Trigger
beyond start [] = []
beyond start (t ∷ ts) = let rest = beyond start ts in if lez t.along_m start then rest else t ∷ ts

-- `Plan.triggers_between`
unfoldable pub triggers_between : Plan → Float → Float → List Trigger
unfolding upto beyond
triggers_between plan start end = upto end (beyond start plan.triggers)

unfoldable pub time_of : EventKind → Option Instant × Option Instant → Option Instant
unfolding first_of
time_of EventKind.arrival (arrival, departure) = first_of arrival departure
time_of EventKind.departure (arrival, departure) = first_of departure arrival
time_of EventKind.passage (arrival, departure) = first_of departure arrival

-- `Plan.scheduled_time`
unfoldable pub scheduled_time : Plan → ℕ → EventKind → Raises (Option Instant)
unfolding time_of
scheduled_time plan call kind = elim (get_elem? plan.scheduled call) [
  | none ↦ none
  | some times ↦ some (time_of kind times)
]

unfoldable pub left_at : StopZone → Float → Bool
left_at zone along = elim zone.departure_m [
  | some departure ↦ lez departure along
  | none ↦ elim zone.arrival_m [ none ↦ false | some arrival ↦ lez arrival along ]
]

unfoldable pub last_left : Float → ℤ → ℕ → List StopZone → ℤ
unfolding left_at
last_left along index i [] = index
last_left along index i (zone ∷ zones) =
    last_left along (if left_at zone along then pos i else index) (suc i) zones

-- `Plan.call_index_at`
unfoldable pub call_index_at : Plan → Float → ℤ
unfolding last_left
call_index_at plan along = last_left along (negsuc 0) 0 plan.zones

unfoldable pub in_zone : Float → List StopZone → Bool
in_zone along [] = false
in_zone along (zone ∷ zones) =
    let rest = in_zone along zones in
    if elim zone.arrival_m [ none ↦ false | some arrival ↦ ltz along arrival ]
    then false
    else if elim zone.departure_m [ none ↦ true | some departure ↦ ltz along departure ]
    then true
    else rest

-- `Plan.at_stop`
unfoldable pub at_stop : Plan → Float → Bool
unfolding in_zone
at_stop plan along = in_zone along plan.zones
