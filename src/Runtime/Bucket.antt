-- ===== src/Runtime/Bucket.antt =====
-- The lookups' token bucket (`Bucket` of src/obehy/realtime/runtime/lookups.py). Times are in
-- microseconds and tokens in sixty-millionths, so that what a microsecond adds is whole.
use obehy.Prelude.{
  ℕ, ◌+◌, ◌-◌, ◌*◌, min, Bool, true, false, Option, none, some, List, [], ◌∷◌, ltb, if◌then◌else◌,
}

pub record Rate : Type 0 where
  pub per_minute : ℕ
  pub burst : ℕ

pub record Bucket : Type 0 where
  pub tokens : Option ℕ
  pub at : ℕ

-- One token.
abbrev pub token : ℕ
token = 60000000

module _ (rate : Rate) where
  unfoldable pub filled : Bucket → ℕ → ℕ
  filled b now = elim b.tokens [
    | none ↦ rate.burst * token
    | some t ↦ min (rate.burst * token) (t + (now - b.at) * rate.per_minute)
  ]

  -- `take`
  unfoldable pub take : Bucket → ℕ → Bucket × Bool
  take b now =
      let tokens = filled b now in
      if ltb tokens token
      then (record { tokens = some tokens; at = now }, false)
      else (record { tokens = some (tokens - token); at = now }, true)

  -- How many of the takes at these times are granted.
  unfoldable pub granted : Bucket → List ℕ → ℕ
  granted b [] = 0
  granted b (now ∷ times) =
      let taken = take b now in
      let rest = granted taken.0 times in if taken.1 then 1 + rest else rest
