-- ===== src/Timeline/Cut.antt =====
-- What a commit leaves of a reading's history (`_cut` of src/obehy/realtime/timeline/commit.py),
-- and the two fixes that bracket a point in it.
use mathlib.Core.Option.{some-injective}
use obehy.Prelude.{
  none, subst, ◌≡◌, refl, sym, ap, ◌∙◌, true, false, ◌&&◌, some, List, [], ◌∷◌, ◌++◌, inl, inr,
  Bool-cases, arith, Option-cases,
}
use obehy.Prelude.Ints.{int_eq, ltz, lez, lez_trans}
use obehy.Prelude.Lists.{All}
use obehy.Model.Facts.{Float}
use obehy.Model.Journey.{Placement, Hypothesis}
use obehy.Timeline.Brackets.{bracket_of, from_last, cut}

-- The fixes are beyond the frontier.
abbrev Beyond : Float → List Placement → Type 0
Beyond frontier = All (λ p. lez p.along_m frontier ≡ false)

-- Nothing is at or behind the frontier.
from_last-none :
    (frontier : Float) (history : List Placement)
    → from_last frontier history ≡ none
    → Beyond frontier history
unfolding from_last
from_last-none frontier [] = λ e. tt
from_last-none frontier (p ∷ history) = elim (Option-cases (from_last frontier history)) [
  | inr (later, q) ↦ rw q (λ k. absurd (cc))
  | inl q ↦ rw q (elim (Bool-cases (lez p.along_m frontier)) [
    | inl behind ↦ rw behind (λ k. absurd (cc))
    | inr ahead ↦ rw ahead (λ k. (refl, from_last-none frontier history q))
  ])
]

-- What is left starts with a fix at or behind the frontier, the last one there.
from_last-behind :
    (frontier : Float) (history rest : List Placement)
    → from_last frontier history ≡ some rest
    → (p : Placement) × (kept : List Placement) × (rest ≡ p ∷ kept)
      × (lez p.along_m frontier ≡ true)
      × Beyond frontier kept
unfolding from_last
from_last-behind frontier [] rest = λ e. absurd (cc)
from_last-behind frontier (p ∷ history) rest = elim (Option-cases (from_last frontier history)) [
  | inr (later, e) ↦ rw e (λ k. from_last-behind frontier history rest (e ∙ k))
  | inl e ↦ rw e (elim (Bool-cases (lez p.along_m frontier)) [
    | inl behind ↦ rw behind (λ k. (
      p,
      history,
      sym (some-injective (p ∷ history) rest k),
      behind,
      from_last-none frontier history e,
    ))
    | inr ahead ↦ rw ahead (λ k. absurd (cc))
  ])
]

-- A point beyond another is beyond what is not past that one.
lez-short : (a b c : Float) → lez a b ≡ false → lez c b ≡ true → lez a c ≡ false
lez-short a b c far near = elim (Bool-cases (lez a c)) [
  | inl over ↦ absurd (cc (lez_trans a c b over near, far))
  | inr under ↦ under
]

-- Fixes short of a point do not bracket it.
bracket_of-short :
    (along : Float) (dropped : List Placement) (q : Placement) (kept : List Placement)
    → All (λ p. lez along p.along_m ≡ false) dropped
    → lez along q.along_m ≡ false
    → bracket_of (dropped ++ q ∷ kept) along ≡ bracket_of (q ∷ kept) along
unfolding bracket_of
bracket_of-short along [] q kept all under = refl
bracket_of-short along (p ∷ []) q kept all under =
    let none_here : (ltz p.along_m along && lez along q.along_m) ≡ false = ground (arith, under) in
    rw none_here refl
bracket_of-short along (p ∷ r ∷ dropped) q kept all under =
    let none_here : (ltz p.along_m along && lez along r.along_m) ≡ false =
      ground (arith, all.1.0) in
    rw none_here (bracket_of-short along (r ∷ dropped) q kept all.1 under)

-- What a commit leaves of a history: the last fix at or behind the frontier and what follows it; a
-- history with no such fix is left whole.
pub data LeftFrom (frontier : Float) (history : List Placement) : List Placement → Type 0 where
  whole : Beyond frontier history → LeftFrom frontier history history
  last_behind :
      (dropped : List Placement) (q : Placement) (kept : List Placement)
      → history ≡ dropped ++ q ∷ kept
      → lez q.along_m frontier ≡ true
      → Beyond frontier kept
      → LeftFrom frontier history (q ∷ kept)

from_last-split :
    (frontier : Float) (history rest : List Placement)
    → from_last frontier history ≡ some rest
    → (dropped : List Placement) × (history ≡ dropped ++ rest)
unfolding from_last
from_last-split frontier [] rest = λ e. absurd (cc)
from_last-split frontier (p ∷ history) rest = elim (Option-cases (from_last frontier history)) [
  | inr (later, e) ↦ rw e (λ k.
      let (dropped, split) = from_last-split frontier history rest (e ∙ k) in
      (p ∷ dropped, ap (λ l. p ∷ l) split))
  | inl e ↦ rw e (elim (Bool-cases (lez p.along_m frontier)) [
    | inl behind ↦ rw behind (λ k. ([], some-injective (p ∷ history) rest k))
    | inr ahead ↦ rw ahead (λ k. absurd (cc))
  ])
]

cut-LeftFrom :
    (frontier : Float) (h : Hypothesis) → LeftFrom frontier h.history (cut frontier h).history
unfolding cut
cut-LeftFrom frontier h = elim (Option-cases (from_last frontier h.history)) [
  | inl e ↦ rw (cut, e) (LeftFrom.whole (from_last-none frontier h.history e))
  | inr (rest, e) ↦
      let (q, kept, head, near, beyond) = from_last-behind frontier h.history rest e in
      let (dropped, split) = from_last-split frontier h.history rest e in
      let left : q ∷ kept ≡ (cut frontier h).history = rw (cut, e) (sym head) in
      subst (LeftFrom frontier h.history) left
        (LeftFrom.last_behind dropped q kept (split ∙ ap (λ l. dropped ++ l) head) near beyond)
]

cut_keeps_bracket :
    (frontier along : Float) (h : Hypothesis) (dropped : List Placement)
    → h.history ≡ dropped ++ (cut frontier h).history
    → All (λ p. lez along p.along_m ≡ false) dropped
    → lez along frontier ≡ false
    → bracket_of (cut frontier h).history along ≡ bracket_of h.history along
unfolding cut
cut_keeps_bracket frontier along h dropped split unreached far =
    elim (Option-cases (from_last frontier h.history)) [
      | inl e ↦ rw (cut, e) refl
      | inr (rest, e) ↦
          let (q, kept, head, near, _) = from_last-behind frontier h.history rest e in
          let left : (cut frontier h).history ≡ q ∷ kept = rw (cut, e) head in
          let whole : h.history ≡ dropped ++ q ∷ kept = split ∙ ap (λ l. dropped ++ l) left in
          ap (λ l. bracket_of l along) left
          ∙ sym (
              bracket_of-short along dropped q kept unreached
                (lez-short along frontier q.along_m far near))
          ∙ ap (λ l. bracket_of l along) (sym whole)
    ]

-- For a point beyond the frontier that none of the dropped fixes had reached: a commit leaves of a
-- reading's history the last fix at or behind the frontier and all that follows it, or the whole
-- history if it has no such fix, and what is left brackets the point by the same two fixes.
pub cut-bracket :
    (frontier along : Float) (h : Hypothesis) (dropped : List Placement)
    → h.history ≡ dropped ++ (cut frontier h).history
    → All (λ p. lez along p.along_m ≡ false) dropped
    → lez along frontier ≡ false
    → LeftFrom frontier h.history (cut frontier h).history
      × (bracket_of (cut frontier h).history along ≡ bracket_of h.history along)
cut-bracket frontier along h dropped split unreached far =
    (cut-LeftFrom frontier h, cut_keeps_bracket frontier along h dropped split unreached far)
