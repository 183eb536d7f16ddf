-- ===== src/Emit/Pairing.antt =====
-- The pairing of reports that are one vehicle (src/obehy/realtime/emit/pairing.py; `Settings` is
-- `Pairing` of reference/vocabulary.py). A set of reports is a list without repetitions, in the
-- order of insertion. The great-circle distance is a parameter, in the unit of the settings, as
-- is the text by which `observe` orders the journeys (Python's `repr`).
use obehy.Prelude.{
  ℕ, ◌+◌, String, Bool, true, false, not, ◌&&◌, ◌||◌, Option, none, some, List, [], ◌∷◌, Eq, ◌==◌,
  string_eq, leb, if◌then◌else◌, String_discrete,
}
use obehy.Prelude.Equal.{eq_of_discrete}
use obehy.Prelude.Dict.{Dict, lookup, insert, remove}
use obehy.Prelude.Lists.{contains}
use obehy.Prelude.Texts.{str_lt}
use obehy.Model.Facts.{Instant, Float}
use obehy.Model.Journey.{JourneyKey, journey_key_eq}

abbrev pub Report : Type 0
Report = String × String

abbrev pub Pair : Type 0
Pair = Report × Report

unfoldable pub Report-discrete : Discrete Report
Report-discrete = hlevel String_discrete

instance abbrev pub report_eq : Eq Report
report_eq = eq_of_discrete Report-discrete

unfoldable pub Pair-discrete : Discrete Pair
Pair-discrete = hlevel String_discrete

instance abbrev pub pair_eq : Eq Pair
pair_eq = eq_of_discrete Pair-discrete

-- The order of tuples.
unfoldable pub report_lt : Report → Report → Bool
unfolding str_lt
report_lt (s, v) (t, w) = str_lt s t || s == t && str_lt v w

unfoldable pub pair_lt : Pair → Pair → Bool
unfolding report_lt
pair_lt (a, b) (c, d) = report_lt a c || a == c && report_lt b d

pub record Settings : Type 0 where
  pub distance_m : ℕ
  pub apart_m : ℕ
  pub max_fix_gap_s : ℕ
  pub min_fixes : ℕ
  pub confirm_s : ℕ
  pub hold_s : ℕ

pub record Fix : Type 0 where
  pub report : Report
  pub journey : JourneyKey
  pub lon : Float
  pub lat : Float
  pub at : Instant

pub record Evidence : Type 0 where
  pub first_seen : Instant
  pub last_seen : Instant
  pub fixes : ℕ
  pub journey : JourneyKey
  pub confirmed : Bool

pub record Pairings : Type 0 where
  pub pairs : Dict Pair Evidence
  pub changed : Dict Pair (Option Evidence)

-- `moved | {report, …}`
unfoldable pub add_reports : List Report → List Report → List Report
add_reports [] moved = moved
add_reports (r ∷ rs) moved = add_reports rs (if contains r moved then moved else r ∷ moved)

abbrev pub both : Pair → List Report
both (a, b) = a ∷ b ∷ []

unfoldable pub dropped : Pair → Option Evidence → Pairings → Pairings × List Report
dropped pair none p = (p, [])
dropped pair (some evidence) p = (
  record { pairs = remove pair p.pairs; changed = insert pair none p.changed },
  if evidence.confirmed then both pair else [],
)

-- `_drop`: a pair is forgotten; its reports, if it was confirmed.
unfoldable pub drop : Pair → Pairings → Pairings × List Report
unfolding dropped
drop pair p = dropped pair (lookup pair p.pairs) p

-- Evidence that is written to the pairs and to the changes.
unfoldable pub note : Pair → Evidence → Pairings → Pairings
note pair evidence p = record {
  pairs = insert pair evidence p.pairs;
  changed = insert pair (some evidence) p.changed;
}

-- One more close fix.
unfoldable pub grown : JourneyKey → Instant → Evidence → Evidence
grown journey at evidence = record evidence {
  last_seen = at;
  fixes = evidence.fixes + 1;
  journey = journey;
}

module _ (s : Settings) where
  -- Whether the evidence, not confirmed yet, now is enough.
  unfoldable pub confirms : Evidence → Bool
  confirms evidence =
      not evidence.confirmed
      && leb s.min_fixes evidence.fixes
      && leb (evidence.first_seen + s.confirm_s) evidence.last_seen

  unfoldable pub closer :
      Pair → JourneyKey → Instant → Option Evidence → Pairings → Pairings × List Report
  unfolding grown confirms note
  closer pair journey at none p = (
    note pair
        (record {
          first_seen = at;
          last_seen = at;
          fixes = 1;
          journey = journey;
          confirmed = false;
        })
        p,
    [],
  )
  closer pair journey at (some evidence) p =
      let more = grown journey at evidence in
      if leb at evidence.last_seen
      then (p, [])
      else if confirms more
      then (note pair (record more { confirmed = true }) p, both pair)
      else (note pair more p, [])

  -- `_close`: the evidence of a pair grows with a close fix, until it confirms the pair.
  unfoldable pub close : Pair → JourneyKey → Instant → Pairings → Pairings × List Report
  unfolding closer
  close pair journey at p = closer pair journey at (lookup pair p.pairs) p
