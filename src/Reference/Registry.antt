-- ===== src/Reference/Registry.antt =====
-- The vehicle registry (src/obehy/reference/registry.py). How an identifier's scheme compares
-- its values (`_NORMALISE` of vocabulary.py, on texts) is a parameter of the vocabulary.
use obehy.Prelude.{
  ℕ, String, Bool, true, ◌&&◌, ◌||◌, Option, none, some, List, [], ◌∷◌, Eq, ◌==◌, string_eq, nat_eq,
  ltb, leb, if◌then◌else◌, String_discrete, or_else,
}
use obehy.Prelude.Equal.{eq_of_discrete}
use obehy.Prelude.Dict.{Dict, lookup}
use obehy.Prelude.Lists.{keep_if}
use obehy.Prelude.Texts.{str_lt}
use obehy.Model.Facts.{Date}

pub record RegistryKey : Type 0 where
  pub vehicle_id : String
  pub priority : ℕ
  pub valid_from : Date
  pub valid_to : Option Date

until : Option Date → Date → Bool
until none day = true
until (some last) day = leb day last

-- `RegistryKey.valid`
unfoldable pub valid : Date → RegistryKey → Bool
unfolding until
valid day k = leb k.valid_from day && until k.valid_to day

-- `(k.priority, k.vehicle_id) < (j.priority, j.vehicle_id)`
unfoldable pub better : RegistryKey → RegistryKey → Bool
better k j =
    ltb k.priority j.priority || k.priority == j.priority && str_lt k.vehicle_id j.vehicle_id

-- `min` of the keys `k, …`: the first of the least.
unfoldable pub least_key : RegistryKey → List RegistryKey → RegistryKey
unfolding better
least_key k [] = k
least_key k (j ∷ js) = least_key (if better j k then j else k) js

unfoldable pub best_of : List RegistryKey → Option String
unfolding least_key
best_of [] = none
best_of (k ∷ ks) = some (least_key k ks).vehicle_id

-- `_best`
unfoldable pub best : List RegistryKey → Date → Option String
unfolding best_of
best keys day = best_of (keep_if (valid day) keys)

pub data BoundBy : Type 0 where
  by_source by_identifier : BoundBy

abbrev pub Key : Type 0
Key = String × String

unfoldable pub Key-discrete : Discrete Key
Key-discrete = hlevel String_discrete

instance abbrev pub key_eq : Eq Key
key_eq = eq_of_discrete Key-discrete

pub record Registry : Type 0 where
  pub by_source : Dict Key (List RegistryKey)
  pub by_identifier : Dict Key (List RegistryKey)
  -- The schemes of the vocabulary, in its order, each with how its values compare.
  pub identifiers : List (String × (String → String))

abbrev pub keys_at : Key → Dict Key (List RegistryKey) → List RegistryKey
keys_at key keys = or_else (lookup key keys) []

-- The best key of the identifier of one scheme, if the report states one.
unfoldable pub by_scheme :
    Registry → Dict String String → Date → String × (String → String) → Option String
unfolding best
by_scheme registry stated day (scheme, normalise) = elim (lookup scheme stated) [
  | none ↦ none
  | some value ↦ best (keys_at (scheme, normalise value) registry.by_identifier) day
]

-- The loop of `bound` over the schemes.
unfoldable pub by_schemes :
    Registry → Dict String String → Date → List (String × (String → String)) → Option String
unfolding by_scheme
by_schemes registry stated day [] = none
by_schemes registry stated day (scheme ∷ rest) = elim (by_scheme registry stated day scheme) [
  | none ↦ by_schemes registry stated day rest
  | some vehicle ↦ some vehicle
]

-- `Registry.bound`
unfoldable pub bound :
    Registry → String → String → Dict String String → Date → Option (String × BoundBy)
unfolding by_schemes best
bound registry source source_vehicle_id stated day =
    elim (best (keys_at (source, source_vehicle_id) registry.by_source) day) [
      | some found ↦ some (found, by_source)
      | none ↦ elim (by_schemes registry stated day registry.identifiers) [
        | none ↦ none
        | some found ↦ some (found, by_identifier)
      ]
    ]
