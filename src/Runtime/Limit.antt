-- ===== src/Runtime/Limit.antt =====
-- The token bucket keeps the rate, over any takes.
use native.Mathlib.Nat.{add-mul}
use obehy.Prelude.{
  ℕ, ◌+◌, ◌-◌, ◌*◌, ◌≤◌, ◌≡◌, refl, sym, some, List, [], ◌∷◌, ltb, arith, inl, inr, Bool-cases,
  Option-cases, ltb→le,
}
use obehy.Runtime.Bucket.{Rate, Bucket, token, filled, take, granted}

-- The times never decrease from the first on.
unfoldable pub InOrder : ℕ → List ℕ → Type 0
InOrder first [] = Unit
InOrder first (t ∷ ts) = (first ≤ t) × InOrder t ts

unfoldable pub final : ℕ → List ℕ → ℕ
final first [] = first
final first (t ∷ ts) = final t ts

first_le-final : (first : ℕ) (ts : List ℕ) → InOrder first ts → first ≤ final first ts
unfolding InOrder final
first_le-final first [] h = omega arith
first_le-final first (t ∷ ts) h = omega (arith, h.0, first_le-final t ts h.1)

spans : (a t l r : ℕ) → a ≤ t → t ≤ l → (t - a) * r + (l - t) * r ≡ (l - a) * r
spans a t l r h k =
    let whole : (t - a) + (l - t) ≡ l - a = omega (arith, h, k) in
    rw (sym (add-mul (t - a) (l - t) r), whole) refl

module _ (rate : Rate) where
  granted-some :
      (k a : ℕ) (ts : List ℕ)
      → InOrder a ts
      → granted rate (record { tokens = some k; at = a }) ts * token
        ≤ k + (final a ts - a) * rate.per_minute
  unfolding granted take filled InOrder final
  granted-some k a [] h = omega arith
  granted-some k a (t ∷ ts) h =
      let f = filled rate (record { tokens = some k; at = a }) t in
      let add = spans a t (final t ts) rate.per_minute h.0 (first_le-final t ts h.1) in
      elim (Bool-cases (ltb f token)) [
        | inl short ↦ rw short (omega (arith, add, granted-some f t ts h.1))
        | inr enough ↦
            rw enough (omega (arith, add, ltb→le f token enough, granted-some (f - token) t ts h.1))
      ]

  filled-bound : (b : Bucket) (now : ℕ) → filled rate b now ≤ rate.burst * token
  unfolding filled
  filled-bound b now = elim (Option-cases b.tokens) [
    | inl fresh ↦ rw (filled, fresh) (omega arith)
    | inr (k, used) ↦ rw (filled, used) (omega arith)
  ]

  -- Whatever a bucket has been through, the takes that it grants from any moment on, at times that
  -- never decrease, are at most the burst and what the rate adds between the first and the last.
  pub granted-bound :
      (b : Bucket) (first : ℕ) (ts : List ℕ)
      → InOrder first ts
      → granted rate b (first ∷ ts) * token
        ≤ rate.burst * token + (final first ts - first) * rate.per_minute
  unfolding granted take
  granted-bound b first ts h =
      let f = filled rate b first in
      let full = filled-bound b first in
      elim (Bool-cases (ltb f token)) [
        | inl short ↦ rw short (omega (arith, full, granted-some f first ts h))
        | inr enough ↦
            rw enough
              (omega (arith, full, ltb→le f token enough, granted-some (f - token) first ts h))
      ]
