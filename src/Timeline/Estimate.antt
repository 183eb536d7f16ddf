-- ===== src/Timeline/Estimate.antt =====
-- `monotone` of src/obehy/realtime/timeline/estimate.py and `merge` of fusion.py.
use obehy.Prelude.{
  ◌+◌, ◌-◌, min, max, Bool, true, false, Option, none, some, List, [], ◌∷◌, ltb, leb, if◌then◌else◌,
}
use obehy.Model.Facts.{Instant, Interval}
use obehy.Model.Journey.{CallState, Instance}
use obehy.Policy.{RailPolicy}

-- A time that is before the latest one so far is held there.
unfoldable pub held : Option Instant → Option Instant → Option Instant
held latest none = none
held none (some t) = some t
held (some l) (some t) = if ltb t l then some l else some t

unfoldable pub later : Option Instant → Option Instant → Option Instant
later latest none = latest
later latest (some t) = some t

-- The loop of `monotone`.
unfoldable pub repair : Option Instant → List CallState → List CallState
unfolding held later
repair latest [] = []
repair latest (c ∷ cs) =
    let arrival = held latest c.estimated_arrival in
    let departure = held (later latest arrival) c.estimated_departure in
    record c { estimated_arrival = arrival; estimated_departure = departure }
    ∷ repair (later (later latest arrival) departure) cs

-- `monotone`
unfoldable pub monotone : Instance → Instance
monotone i = record i { calls = repair none i.calls }

-- The overlap of a measured interval with a point's, widened by the tolerance; else the point.
unfoldable pub narrowed : Interval → Interval → RailPolicy → Interval
narrowed point measured rail =
    let lo = max measured.lo (point.lo - rail.event_tolerance_s) in
    let hi = min measured.hi (point.hi + rail.event_tolerance_s) in
    if leb lo hi then record { lo = lo; hi = hi } else point

-- `merge`
unfoldable pub merge : Option Interval → Interval → Bool → RailPolicy → Interval
unfolding narrowed
merge none new new_is_point rail = new
merge (some existing) new true rail = narrowed new existing rail
merge (some existing) new false rail = narrowed existing new rail
