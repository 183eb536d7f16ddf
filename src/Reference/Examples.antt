-- ===== src/Reference/Examples.antt =====
-- The registry and the picked statements at concrete inputs.
use mathlib.Core.List.{Memᴰ}
use obehy.Prelude.{◌≡◌, refl, String, false, none, some, List, [], ◌∷◌}
use obehy.Prelude.Dict.{Dict, insert, lookup}
use obehy.Prelude.Sort.{sort_by}
use obehy.Prelude.Groups.{group_by}
use obehy.Reference.Registry.{RegistryKey, Registry, bound}
use obehy.Reference.Best.{Binds, bound-Binds}
use obehy.Reference.Precedence.{Origin, Statement, Picked, Vocabulary, ranks_before, pick}
use obehy.Reference.Picks.{IsPick, pick-IsPick}

abbrev key : RegistryKey
key = record { vehicle_id = "dpmb:1234"; priority = 1; valid_from = 0; valid_to = none }

-- A vehicle known by its plate.
abbrev registry : Registry
registry = record {
  by_source = [];
  by_identifier = (("licence_plate", "1AB2345"), key ∷ []) ∷ [];
  identifiers = ("licence_plate", λ value. value) ∷ [];
}

bound-Binds_example :
    Binds registry "mpvnet" "7"
      (("licence_plate", "1AB2345") ∷ [])
      100
      (bound registry "mpvnet" "7" (("licence_plate", "1AB2345") ∷ []) 100)
bound-Binds_example = bound-Binds registry (("licence_plate", "1AB2345") ∷ []) 100 "mpvnet" "7"

abbrev says : Origin → String → Statement
says origin value = record {
  attribute = "low_floor";
  value = value;
  origin = origin;
  source = "duk";
  priority = none;
  observed_at = none;
}

abbrev statements : List Statement
statements = says Origin.model "false" ∷ says Origin.live "true" ∷ []

abbrev vocabulary : Vocabulary
vocabulary = record { live_sources = "duk" ∷ []; attribute_sources = [] }

pick-IsPick_example :
    (out : Dict String Picked) × (pick statements vocabulary ≡ some out)
    × ((a : String) (p : Picked) → Memᴰ (a, p) out → IsPick vocabulary statements a p)
    × ((s : Statement) → Memᴰ s statements → (p : Picked) × Memᴰ (s.attribute, p) out)
pick-IsPick_example = pick-IsPick vocabulary statements

live_wins :
    pick statements vocabulary
    ≡ some (
        (
          "low_floor",
          record {
            winner = says Origin.live "true";
            conflict = false;
            statements = says Origin.live "true" ∷ says Origin.model "false" ∷ [];
          },
        )
        ∷ [])
unfolding pick sort_by group_by insert lookup ranks_before
live_wins = refl
