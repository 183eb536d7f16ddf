-- ===== src/Emit/Tick.antt =====
-- A tick of the pairings: `observe` and `changes` of src/obehy/realtime/emit/pairing.py.
use obehy.Prelude.{
  ℕ, ◌+◌, String, Bool, false, not, ◌||◌, Option, none, some, List, [], ◌∷◌, ◌++◌, map, ◌==◌,
  string_eq, max, ltb, leb, if◌then◌else◌,
}
use obehy.Prelude.Dict.{Dict, lookup, insert, append_at}
use obehy.Prelude.Sort.{sort_by}
use obehy.Prelude.Texts.{str_lt}
use obehy.Model.Facts.{Instant, Float}
use obehy.Model.Journey.{JourneyKey, journey_key_eq}
use obehy.Emit.Pairing.{
  report_eq, pair_eq, Report, Pair, report_lt, pair_lt, add_reports, drop, close, Settings, Fix,
  Evidence, Pairings,
}

unfoldable pub collect : Pairings × List Report → List Report → Pairings × List Report
unfolding add_reports
collect (p, reports) moved = (p, add_reports reports moved)

-- `{f.report: f.journey for f in fixes}`
unfoldable pub journeys_of : Dict Report JourneyKey → List Fix → Dict Report JourneyKey
journeys_of known [] = known
journeys_of known (f ∷ fs) = journeys_of (insert f.report f.journey known) fs

-- The fixes of each journey, in their order.
unfoldable pub by_journey : Dict JourneyKey (List Fix) → List Fix → Dict JourneyKey (List Fix)
unfolding append_at
by_journey known [] = known
by_journey known (f ∷ fs) = by_journey (append_at f.journey f known) fs

-- `combinations(fixes, 2)`
unfoldable pub combinations : List Fix → List (Fix × Fix)
combinations [] = []
combinations (f ∷ fs) = map (λ g. (f, g)) fs ++ combinations fs

unfoldable pub report_le : Fix → Fix → Bool
unfolding report_lt
report_le f g = not (report_lt g.report f.report)

unfoldable pub pair_le : Pair × Evidence → Pair × Evidence → Bool
unfolding pair_lt
pair_le x y = not (pair_lt y.0 x.0)

unfoldable pub on_other_journeys : Option JourneyKey → Option JourneyKey → Bool
on_other_journeys (some j) (some k) = not (j == k)
on_other_journeys (some _) none = false
on_other_journeys none k = false

module _ (s : Settings) (distance_m : Float × Float → Float × Float → ℕ)
    (repr : JourneyKey → String) where
  -- Two fixes of one journey.
  unfoldable pub meet : JourneyKey → Fix × Fix → Pairings × List Report → Pairings × List Report
  unfolding collect drop close
  meet journey (a, b) (p, moved) =
      let gap = distance_m (a.lon, a.lat) (b.lon, b.lat) in
      let pair : Pair = (a.report, b.report) in
      if a.report.0 == b.report.0
        || ltb (a.at + s.max_fix_gap_s) b.at
        || ltb (b.at + s.max_fix_gap_s) a.at
      then (p, moved)
      else if ltb s.apart_m gap
      then collect (drop pair p) moved
      else if leb gap s.distance_m
      then collect (close s pair journey (max a.at b.at) p) moved
      else (p, moved)

  unfoldable pub meet_all :
      JourneyKey → List (Fix × Fix) → Pairings × List Report → Pairings × List Report
  meet_all journey [] acc = acc
  meet_all journey (m ∷ ms) acc = meet_all journey ms (meet journey m acc)

  unfoldable pub journey_le : JourneyKey × List Fix → JourneyKey × List Fix → Bool
  journey_le x y = not (str_lt (repr y.0) (repr x.0))

  -- The loop of `observe` over the journeys.
  unfoldable pub meet_groups :
      List (JourneyKey × List Fix) → Pairings × List Report → Pairings × List Report
  unfolding meet_all combinations report_le
  meet_groups [] acc = acc
  meet_groups ((journey, group) ∷ rest) acc =
      meet_groups rest (meet_all journey (combinations (sort_by report_le group)) acc)

  -- The loop of `observe` over the pairs.
  unfoldable pub expire :
      Dict Report JourneyKey
      → Instant
      → List (Pair × Evidence)
      → Pairings × List Report
      → Pairings × List Report
  unfolding on_other_journeys collect drop
  expire journeys now [] acc = acc
  expire journeys now ((pair, evidence) ∷ rest) (p, moved) = expire journeys now rest (
      if on_other_journeys (lookup pair.0 journeys) (lookup pair.1 journeys)
        || ltb (evidence.last_seen + s.hold_s) now
      then collect (drop pair p) moved
      else (p, moved))

  -- `observe`: the pairings after a tick's fixes, and the reports whose pairing was confirmed or
  -- dropped.
  unfoldable pub observe : List Fix → Instant → Pairings → Pairings × List Report
  unfolding meet_groups by_journey journeys_of expire pair_le journey_le
  observe fixes now p =
      let met = meet_groups (sort_by journey_le (by_journey [] fixes)) (p, []) in
      expire (journeys_of [] fixes) now (sort_by pair_le met.0.pairs) met

-- `changes`
unfoldable pub changes : Pairings → Pairings × Dict Pair (Option Evidence)
changes p = (record p { changed = [] }, p.changed)
