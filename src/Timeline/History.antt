-- ===== src/Timeline/History.antt =====
-- The fixes that a reading keeps (`_placed` of src/obehy/realtime/timeline/progress.py).
use mathlib.Core.List.{append_assoc, append-nil}
use obehy.Prelude.{
  ◌≡◌, refl, sym, ap, ◌∙◌, false, ◌&&◌, Option, none, some, List, [], ◌∷◌, ◌++◌, inl, inr,
  Bool-cases, arith, if◌then◌else◌, ◌==◌, ==→eq, subst,
}
use obehy.Prelude.Ints.{int_eq, ltz, lez}
use obehy.Model.Facts.{Float}
use obehy.Model.Journey.{Placement}
use obehy.Timeline.Brackets.{Bracket, bracket_of}

-- The history after its first fix `a`, with the fix `p`.
unfoldable pub placed_after : Placement → List Placement → Placement → List Placement
placed_after a [] p = p ∷ []
placed_after a (b ∷ []) p =
    if b.along_m == p.along_m && p.along_m == a.along_m then p ∷ [] else b ∷ p ∷ []
placed_after a (b ∷ c ∷ rest) p = b ∷ placed_after b (c ∷ rest) p

-- `_placed`
unfoldable pub placed : List Placement → Placement → List Placement
unfolding placed_after
placed [] p = p ∷ []
placed (a ∷ history) p = a ∷ placed_after a history p

-- The history after a run of fixes.
unfoldable pub placed_all : List Placement → List Placement → List Placement
unfolding placed
placed_all history [] = history
placed_all history (p ∷ ps) = placed_all (placed history p) ps

no_move : (a b c along : Float) → b ≡ a → c ≡ b → (ltz a along && lez along c) ≡ false
unfolding lez
no_move a b c along e f = elim (Bool-cases (ltz c along)) [
  | inl h ↦ ground (arith, h)
  | inr h ↦
      let k : ltz a along ≡ ltz c along = ap (λ x. ltz x along) (sym (f ∙ e)) in
      ground (arith, h, k)
]

placed_after-bracket :
    (a : Placement) (history : List Placement) (p : Placement) (along : Float)
    → bracket_of (a ∷ placed_after a history p) along ≡ bracket_of (a ∷ history ++ p ∷ []) along
unfolding placed_after bracket_of
placed_after-bracket a [] p along = refl
placed_after-bracket a (b ∷ []) p along =
    elim (Bool-cases (b.along_m == p.along_m && p.along_m == a.along_m)) [
      | inr moved ↦ rw moved refl
      | inl stands ↦
          let bp = ==→eq b.along_m p.along_m (ground (arith, stands)) in
          let pa = ==→eq p.along_m a.along_m (ground (arith, stands)) in
          let e1 = no_move a.along_m a.along_m p.along_m along refl pa in
          let e2 = no_move a.along_m a.along_m b.along_m along refl (bp ∙ pa) in
          let e3 = no_move b.along_m b.along_m p.along_m along refl (sym bp) in
          rw (stands, e1, e2, e3) refl
    ]
placed_after-bracket a (b ∷ c ∷ rest) p along =
    elim (Bool-cases (ltz a.along_m along && lez along b.along_m)) [
      | inl here ↦ rw here refl
      | inr later ↦ rw later (placed_after-bracket b (c ∷ rest) p along)
    ]

unfoldable pub last? : List Placement → Option Placement
last? [] = none
last? (p ∷ []) = some p
last? (p ∷ q ∷ history) = last? (q ∷ history)

-- The bracket with one more fix, after the one so far and the last fix so far.
then_bracket : Option Bracket → Option Placement → Placement → Float → Option Bracket
then_bracket (some b) last p along = some b
then_bracket none none p along = none
then_bracket none (some last) p along =
    if ltz last.along_m along && lez along p.along_m then some (last, p) else none

bracket_of-snoc :
    (history : List Placement) (p : Placement) (along : Float)
    → bracket_of (history ++ p ∷ []) along
      ≡ then_bracket (bracket_of history along) (last? history) p along
unfolding bracket_of last? then_bracket
bracket_of-snoc [] p along = refl
bracket_of-snoc (a ∷ []) p along = refl
bracket_of-snoc (a ∷ b ∷ history) p along =
    elim (Bool-cases (ltz a.along_m along && lez along b.along_m)) [
      | inl here ↦ rw here refl
      | inr later ↦ rw later (bracket_of-snoc (b ∷ history) p along)
    ]

last?-snoc : (history : List Placement) (p : Placement) → last? (history ++ p ∷ []) ≡ some p
unfolding last?
last?-snoc [] p = refl
last?-snoc (a ∷ []) p = refl
last?-snoc (a ∷ b ∷ history) p = last?-snoc (b ∷ history) p

placed_after-last :
    (a : Placement) (history : List Placement) (p : Placement)
    → last? (a ∷ placed_after a history p) ≡ some p
unfolding placed_after last?
placed_after-last a [] p = refl
placed_after-last a (b ∷ []) p =
    elim (Bool-cases (b.along_m == p.along_m && p.along_m == a.along_m)) [
      | inl stands ↦ rw stands refl
      | inr moved ↦ rw moved refl
    ]
placed_after-last a (b ∷ c ∷ rest) p = placed_after-last b (c ∷ rest) p

-- Two histories with the same last fix and the same brackets.
AreAlike : List Placement → List Placement → Type 0
AreAlike kept all =
    (last? kept ≡ last? all) × ((along : Float) → bracket_of kept along ≡ bracket_of all along)

placed-AreAlike :
    (kept all : List Placement) (p : Placement)
    → AreAlike kept all
    → AreAlike (placed kept p) (all ++ p ∷ [])
unfolding AreAlike placed
placed-AreAlike kept all p (last, same) = (
  placed-last kept ∙ sym (last?-snoc all p),
  λ along.
      placed-bracket kept along
      ∙ bracket_of-snoc kept p along
      ∙ ap (λ b. then_bracket b (last? kept) p along) (same along)
      ∙ ap (λ l. then_bracket (bracket_of all along) l p along) last
      ∙ sym (bracket_of-snoc all p along),
)
  where
    placed-last : (history : List Placement) → last? (placed history p) ≡ some p
    placed-last [] = last?-snoc [] p
    placed-last (a ∷ history) = placed_after-last a history p

    placed-bracket :
        (history : List Placement) (along : Float)
        → bracket_of (placed history p) along ≡ bracket_of (history ++ p ∷ []) along
    placed-bracket [] along = refl
    placed-bracket (a ∷ history) along = placed_after-bracket a history p along

placed_all-AreAlike :
    (kept all ps : List Placement) → AreAlike kept all → AreAlike (placed_all kept ps) (all ++ ps)
unfolding placed_all
placed_all-AreAlike kept all [] same = subst (AreAlike kept) (sym (append-nil all)) same
placed_all-AreAlike kept all (p ∷ ps) same =
    subst (AreAlike (placed_all (placed kept p) ps)) (append_assoc all (p ∷ []) ps)
      (placed_all-AreAlike (placed kept p) (all ++ p ∷ []) ps (placed-AreAlike kept all p same))

-- Three fixes in a row are not at one place.
unfoldable pub Compact : List Placement → Type 0
Compact (a ∷ b ∷ c ∷ history) =
    ¬ ((c.along_m ≡ b.along_m) × (b.along_m ≡ a.along_m)) × Compact (b ∷ c ∷ history)
Compact _ = Unit

placed_after-Compact :
    (a : Placement) (history : List Placement) (p : Placement)
    → Compact (a ∷ history)
    → Compact (a ∷ placed_after a history p)
unfolding placed_after Compact
placed_after-Compact a [] p h = tt
placed_after-Compact a (b ∷ []) p h =
    elim (Bool-cases (b.along_m == p.along_m && p.along_m == a.along_m)) [
      | inl stands ↦ rw stands tt
      | inr moved ↦ rw moved (
        λ (pb, ba).
            let one = (int_eq.same_iff b.along_m p.along_m).1 (sym pb) in
            let two = (int_eq.same_iff p.along_m a.along_m).1 (pb ∙ ba) in
            ground (arith, one, two, moved),
        tt,
      )
    ]
placed_after-Compact a (b ∷ c ∷ []) p h =
    elim (Bool-cases (c.along_m == p.along_m && p.along_m == b.along_m)) [
      | inl stands ↦
          rw stands
            (λ (pb, ba). h.0 (==→eq c.along_m p.along_m (ground (arith, stands)) ∙ pb, ba), tt)
      | inr moved ↦ rw moved (
        h.0,
        (
          λ (pc, cb).
              let one = (int_eq.same_iff c.along_m p.along_m).1 (sym pc) in
              let two = (int_eq.same_iff p.along_m b.along_m).1 (pc ∙ cb) in
              ground (arith, one, two, moved),
          tt,
        ),
      )
    ]
placed_after-Compact a (b ∷ c ∷ d ∷ rest) p h = (h.0, placed_after-Compact b (c ∷ d ∷ rest) p h.1)

placed_all-Compact :
    (history ps : List Placement) → Compact history → Compact (placed_all history ps)
unfolding placed_all placed Compact
placed_all-Compact history [] h = h
placed_all-Compact [] (p ∷ ps) h = placed_all-Compact (p ∷ []) ps tt
placed_all-Compact (a ∷ history) (p ∷ ps) h =
    placed_all-Compact (a ∷ placed_after a history p) ps (placed_after-Compact a history p h)

unfoldable pub first? : List Placement → Option Placement
first? [] = none
first? (p ∷ history) = some p

placed_all-first :
    (a : Placement) (history ps : List Placement) → first? (placed_all (a ∷ history) ps) ≡ some a
unfolding placed_all placed first?
placed_all-first a history [] = refl
placed_all-first a history (p ∷ ps) = placed_all-first a (placed_after a history p) ps

starts : (ps : List Placement) → first? (placed_all [] ps) ≡ first? ps
unfolding placed_all placed first?
starts [] = refl
starts (p ∷ ps) = placed_all-first p [] ps

-- The history that `_placed` makes of a run of fixes, one after the other, never holds three in a
-- row at one place, starts with the first fix and ends with the last, and brackets every point along the path by the same
-- two fixes as the full list of the fixes does.
pub placed_all-bracket :
    (ps : List Placement)
    → Compact (placed_all [] ps)
      × (first? (placed_all [] ps) ≡ first? ps)
      × (last? (placed_all [] ps) ≡ last? ps)
      × ((along : Float) → bracket_of (placed_all [] ps) along ≡ bracket_of ps along)
unfolding AreAlike Compact
placed_all-bracket ps =
    let (last, same) = placed_all-AreAlike [] [] ps (refl, λ a. refl) in
    (placed_all-Compact [] ps tt, starts ps, last, same)
