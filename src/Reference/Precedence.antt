-- ===== src/Reference/Precedence.antt =====
-- Which statement about a vehicle's attribute counts (src/obehy/reference/precedence.py, with
-- `source_rank` of vocabulary.py). The time of a live value is in whole microseconds.
use obehy.Prelude.{
  ℕ, ◌^◌, String, Bool, not, ◌&&◌, ◌||◌, Option, none, some, List, [], ◌∷◌, ◌==◌, nat_eq, string_eq,
  ltb, or_else,
}
use obehy.Prelude.Dict.{Dict, lookup}
use obehy.Prelude.Lists.{any}
use obehy.Prelude.Groups.{group_by}
use obehy.Prelude.Raises.{Raises, ◌>>=◌}
use obehy.Prelude.Sort.{sort_by}
use obehy.Prelude.Texts.{str_lt}
use obehy.Model.Facts.{Instant}
use obehy.Policy.{rank_in}

pub data Origin : Type 0 where
  curated live model : Origin

pub record Statement : Type 0 where
  pub attribute : String
  pub value : String
  pub origin : Origin
  pub source : String
  pub priority : Option ℕ
  pub observed_at : Option Instant

pub record Picked : Type 0 where
  pub winner : Statement
  pub conflict : Bool
  pub statements : List Statement

-- What ranks the live sources: an order for an attribute, else the general one.
pub record Vocabulary : Type 0 where
  pub live_sources : List String
  pub attribute_sources : Dict String (List String)

-- `Vocabulary.source_rank`
unfoldable pub source_rank : Vocabulary → String → String → ℕ
source_rank vocabulary attribute source =
    rank_in (or_else (lookup attribute vocabulary.attribute_sources) vocabulary.live_sources) source

-- `_ORIGIN`
abbrev pub origin_rank : Origin → ℕ
origin_rank curated = 0
origin_rank live = 1
origin_rank model = 2

unfoldable pub rank_within : Vocabulary → Origin → Statement → ℕ
rank_within vocabulary live s = source_rank vocabulary s.attribute s.source
rank_within vocabulary curated s = or_else s.priority (2 ^ 20)
rank_within vocabulary model s = or_else s.priority (2 ^ 20)

-- `_rank(a) < _rank(b)`: the tuples compared; of two times the later ranks first, and a statement
-- without one counts as of time zero.
unfoldable pub ranks_before : Vocabulary → Statement → Statement → Bool
unfolding rank_within
ranks_before vocabulary a b =
    let within_a = rank_within vocabulary a.origin a in
    let within_b = rank_within vocabulary b.origin b in
    let time_a = or_else a.observed_at 0 in
    let time_b = or_else b.observed_at 0 in
    ltb (origin_rank a.origin) (origin_rank b.origin)
    || origin_rank a.origin == origin_rank b.origin
      && (ltb within_a within_b
          || within_a == within_b
            && (ltb time_b time_a
                || time_a == time_b
                  && (str_lt a.source b.source || a.source == b.source && str_lt a.value b.value)))

abbrev pub rank_le : Vocabulary → Statement → Statement → Bool
rank_le vocabulary a b = not (ranks_before vocabulary b a)

-- `s.origin in ("curated", "live")`
abbrev pub is_stated : Statement → Bool
is_stated s = ltb (origin_rank s.origin) 2

unfoldable pub contradicts : Statement → Statement → Bool
contradicts winner s = is_stated s && not (s.value == winner.value)

-- The statements of one attribute in rank order: the first wins.
unfoldable pub pick_first : List Statement → Raises Picked
unfolding contradicts
pick_first [] = none
pick_first (winner ∷ rest) = some (record {
  winner = winner;
  conflict = any (contradicts winner) (winner ∷ rest);
  statements = winner ∷ rest;
})

abbrev pub attribute_le : String × List Statement → String × List Statement → Bool
attribute_le x y = not (str_lt y.0 x.0)

-- The loop of `pick` over the attributes.
unfoldable pub pick_each : Vocabulary → List (String × List Statement) → Raises (Dict String Picked)
unfolding pick_first
pick_each vocabulary [] = some []
pick_each vocabulary ((attribute, group) ∷ rest) =
    pick_first (sort_by (rank_le vocabulary) group) >>= λ picked.
    pick_each vocabulary rest >>= λ others. some ((attribute, picked) ∷ others)

-- `pick`
unfoldable pub pick : List Statement → Vocabulary → Raises (Dict String Picked)
unfolding pick_each
pick statements vocabulary =
    pick_each vocabulary
      (sort_by attribute_le (group_by (λ (s : Statement). s.attribute) [] statements))
