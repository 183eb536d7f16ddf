-- ===== src/Emit/Observe.antt =====
-- What holds of the pairings after a tick holds by what a dropped pair and a close fix keep: the
-- induction over the loops of `observe`.
use obehy.Prelude.{
  ℕ, ◌+◌, String, Bool, true, false, ◌||◌, ◌≡◌, refl, List, [], ◌∷◌, ◌==◌, string_eq, ltb, leb, max,
  if◌then◌else◌,
}
use obehy.Prelude.Sort.{sort_by}
use obehy.Prelude.Dict.{Dict}
use obehy.Model.Facts.{Instant, Float}
use obehy.Model.Journey.{JourneyKey}
use obehy.Emit.Pairing.{Report, report_eq, Pair, Settings, Fix, Evidence, Pairings, drop, close}
use obehy.Emit.Tick.{
  collect, meet, meet_all, meet_groups, combinations, report_le, expire, observe, journeys_of,
  by_journey, journey_le, pair_le,
}

left_false : (a b : Bool) → (a || b) ≡ false → a ≡ false
left_false true b h = h
left_false false b h = refl

module _ (s : Settings) (distance_m : Float × Float → Float × Float → ℕ)
    (repr : JourneyKey → String) (P : Pairings → Type 0)
    (drop-P : (pair : Pair) (p : Pairings) → P p → P (drop pair p).0)
    (close-P : (pair : Pair) (journey : JourneyKey) (at : Instant) (p : Pairings)
      → string_eq.same pair.0.0 pair.1.0 ≡ false
      → P p
      → P (close s pair journey at p).0) where
  if-P :
      (b : Bool) (x y : Pairings × List Report)
      → (b ≡ true → P x.0)
      → (b ≡ false → P y.0)
      → P (if b then x else y).0
  if-P true x y h k = h refl
  if-P false x y h k = k refl

  meet-P :
      (journey : JourneyKey) (m : Fix × Fix) (acc : Pairings × List Report)
      → P acc.0
      → P (meet s distance_m repr journey m acc).0
  unfolding meet collect
  meet-P journey (a, b) (p, moved) h =
      let pair : Pair = (a.report, b.report) in
      let same = a.report.0 == b.report.0 in
      let before = ltb (a.at + s.max_fix_gap_s) b.at in
      let after = ltb (b.at + s.max_fix_gap_s) a.at in
      let gap = distance_m (a.lon, a.lat) (b.lon, b.lat) in
      let parted = collect (drop pair p) moved in
      let closed = collect (close s pair journey (max a.at b.at) p) moved in
      let rest = if leb gap s.distance_m then closed else (p, moved) in
      if-P (same || before || after) (p, moved) (if ltb s.apart_m gap then parted else rest)
        (λ _. h)
        λ other.
          if-P (ltb s.apart_m gap) parted rest (λ _. drop-P pair p h)
            λ _.
              if-P (leb gap s.distance_m) closed (p, moved)
                (λ _.
                  close-P pair journey (max a.at b.at) p
                    (left_false same before (left_false (same || before) after other)) h)
                λ _. h

  meet_all-P :
      (journey : JourneyKey) (ms : List (Fix × Fix)) (acc : Pairings × List Report)
      → P acc.0
      → P (meet_all s distance_m repr journey ms acc).0
  unfolding meet_all
  meet_all-P journey [] acc h = h
  meet_all-P journey (m ∷ ms) acc h =
      meet_all-P journey ms (meet s distance_m repr journey m acc) (meet-P journey m acc h)

  meet_groups-P :
      (groups : List (JourneyKey × List Fix)) (acc : Pairings × List Report)
      → P acc.0
      → P (meet_groups s distance_m repr groups acc).0
  unfolding meet_groups
  meet_groups-P [] acc h = h
  meet_groups-P ((journey, group) ∷ rest) acc h =
      let ms = combinations (sort_by report_le group) in
      meet_groups-P rest (meet_all s distance_m repr journey ms acc) (meet_all-P journey ms acc h)

  expire-P :
      (journeys : Dict Report JourneyKey) (now : Instant) (items : List (Pair × Evidence))
      (acc : Pairings × List Report)
      → P acc.0
      → P (expire s distance_m repr journeys now items acc).0
  unfolding expire collect
  expire-P journeys now [] acc h = h
  expire-P journeys now ((pair, evidence) ∷ rest) (p, moved) h =
      expire-P journeys now rest _ (if-P _ _ _ (λ _. drop-P pair p h) (λ _. h))

  pub observe-P :
      (fixes : List Fix) (now : Instant) (p : Pairings)
      → P p
      → P (observe s distance_m repr fixes now p).0
  unfolding observe
  observe-P fixes now p h =
      let groups = sort_by (journey_le s distance_m repr) (by_journey [] fixes) in
      let met = meet_groups s distance_m repr groups (p, []) in
      expire-P (journeys_of [] fixes) now (sort_by pair_le met.0.pairs) met
        (meet_groups-P groups (p, []) h)
