-- ===== src/Timeline/Readings.antt =====
-- The readings that decide a commit (`_deciding` of src/obehy/realtime/timeline/commit.py).
use mathlib.Core.List.{Memᴰ}
use obehy.Prelude.{
  ◌≡◌, refl, sym, ap, ◌∙◌, Bool, true, List, [], ◌∷◌, map, inl, inr, Bool-cases, arith, ◌&&◌, ltb,
  ◌+◌,
}
use obehy.Prelude.Ints.{lez, neg}
use obehy.Prelude.Lists.{All, keep_if, length, take, any}
use obehy.Prelude.Raises.{Gives, Returns, bind-Returns, then-Gives}
use obehy.Model.Facts.{Instant}
use obehy.Model.Journey.{Placement, Hypothesis}
use obehy.Policy.{ProgressPolicy}
use obehy.Timeline.Brackets.{deciding_of, oldest_of, first_at}
use obehy.Timeline.Between.{All-map}
use obehy.Timeline.Crossings.{HasHistory}

module _ {A : Type 0} where
  keep_if-Memᴰ : (p : A → Bool) (xs : List A) → All (λ a. Memᴰ a xs) (keep_if p xs)
  keep_if-Memᴰ p [] = tt
  keep_if-Memᴰ p (x ∷ xs) =
      let rest = All-map _ _ (keep_if p xs) (λ a m. Memᴰ.tail m) (keep_if-Memᴰ p xs) in
      elim (Bool-cases (p x)) [
        | inl holds ↦ rw holds (Memᴰ.head refl, rest)
        | inr fails ↦ rw fails rest
      ]

  take-All : (P : A → Type 0) (xs : List A) → All P xs → All P (take 1 xs)
  take-All P [] h = tt
  take-All P (x ∷ xs) h = (h.0, tt)

  pub map-keep_if-Memᴰ :
      (f : A → A) (p : A → Bool) (a : A) (xs : List A)
      → p a ≡ true
      → Memᴰ a xs
      → Memᴰ (f a) (map f (keep_if p xs))
  map-keep_if-Memᴰ f p a [] h m = elim m [ ]
  map-keep_if-Memᴰ f p a (x ∷ xs) h (Memᴰ.head q) = rw (sym (ap p q) ∙ h) (Memᴰ.head (ap f q))
  map-keep_if-Memᴰ f p a (x ∷ xs) h (Memᴰ.tail m) = elim (Bool-cases (p x)) [
    | inl holds ↦ rw holds (Memᴰ.tail (map-keep_if-Memᴰ f p a xs h m))
    | inr fails ↦ rw fails (map-keep_if-Memᴰ f p a xs h m)
  ]

-- Each reading has fixes, and some reading is not negligible.
unfoldable pub IsReady : ProgressPolicy → List Hypothesis → Type 0
unfolding HasHistory
IsReady policy beam =
    All (λ k. HasHistory k.history) beam
    × (any (λ k. lez (neg policy.agree_within) k.log_p) beam ≡ true)

-- There is a first reading, and it has fixes.
unfoldable pub Led : List Hypothesis → Type 0
unfolding HasHistory
Led [] = ⊥
Led (h ∷ hs) = HasHistory h.history

keep_if-All :
    (p : Hypothesis → Bool) (beam : List Hypothesis)
    → All (λ k. HasHistory k.history) beam
    → All (λ k. HasHistory k.history) (keep_if p beam)
keep_if-All p [] all = tt
keep_if-All p (k ∷ ks) all = elim (Bool-cases (p k)) [
  | inl holds ↦ rw holds (all.0, keep_if-All p ks all.1)
  | inr fails ↦ rw fails (keep_if-All p ks all.1)
]

keep_if-Led :
    (p : Hypothesis → Bool) (beam : List Hypothesis)
    → All (λ k. HasHistory k.history) beam
    → any p beam ≡ true
    → Led (keep_if p beam) × All (λ k. HasHistory k.history) (keep_if p beam)
unfolding Led
keep_if-Led p [] all h = absurd (cc)
keep_if-Led p (k ∷ ks) all h = elim (Bool-cases (p k)) [
  | inl holds ↦ rw holds (all.0, (all.0, keep_if-All p ks all.1))
  | inr fails ↦ rw fails (keep_if-Led p ks all.1 (ground (arith, fails)))
]

first_at-Returns : (history : List Placement) → HasHistory history → Returns (first_at history)
unfolding first_at HasHistory
first_at-Returns [] seen = absurd seen
first_at-Returns (p ∷ ps) seen = (_, refl)

Led-take : (hs : List Hypothesis) → Led hs → Led (take 1 hs)
unfolding Led
Led-take [] led = led
Led-take (h ∷ hs) led = led

oldest_of-Returns :
    (hs : List Hypothesis) → Led hs → All (λ k. HasHistory k.history) hs → Returns (oldest_of hs)
unfolding oldest_of Led
oldest_of-Returns [] led all = absurd led
oldest_of-Returns (h ∷ []) led all = first_at-Returns h.history led
oldest_of-Returns (h ∷ k ∷ ks) led all =
    bind-Returns _ _ (first_at-Returns h.history led)
      (λ at. bind-Returns _ _ (oldest_of-Returns (k ∷ ks) all.1.0 all.1) (λ rest. (_, refl)))

pub deciding_of-Gives :
    (policy : ProgressPolicy) (beam : List Hypothesis) (at : Instant)
    → IsReady policy beam
    → Gives
        (deciding_of beam at policy)
        (λ deciding. Led deciding × All (λ k. Memᴰ k beam) deciding)
unfolding deciding_of IsReady
deciding_of-Gives policy beam at ready =
    let p : Hypothesis → Bool = λ k. lez (neg policy.agree_within) k.log_p in
    let (led, all) = keep_if-Led p beam ready.0 ready.1 in
    then-Gives {Q = λ deciding. Led deciding × All (λ k. Memᴰ k beam) deciding}
      (oldest_of (keep_if p beam)) _ (oldest_of-Returns (keep_if p beam) led all)
      (λ oldest.
        elim (Bool-cases
          (ltb 1 (length (keep_if p beam)) && ltb (oldest + policy.max_commit_lag_s) at)) [
            | inl lag ↦
                rw lag
                  (_, refl, (Led-take (keep_if p beam) led, take-All _ _ (keep_if-Memᴰ p beam)))
            | inr prompt ↦ rw prompt (_, refl, (led, keep_if-Memᴰ p beam))
          ])
