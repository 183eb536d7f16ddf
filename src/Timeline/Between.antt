-- ===== src/Timeline/Between.antt =====
-- The triggers between two distances (`triggers_between` of
-- src/obehy/realtime/timeline/plan.py).
use mathlib.Core.List.{Memᴰ}
use obehy.Prelude.{◌≡◌, refl, true, false, List, [], ◌∷◌, inl, inr, Bool-cases}
use obehy.Prelude.Ints.{lez, lez_trans, lez_total}
use obehy.Prelude.Lists.{All}
use obehy.Model.Facts.{Float}
use obehy.Timeline.Timetable.{Trigger, Plan, upto, beyond, triggers_between}

-- The distances along the path never decrease from `start` on.
unfoldable pub Ascending : Float → List Trigger → Type 0
Ascending start [] = Unit
Ascending start (t ∷ ts) = (lez start t.along_m ≡ true) × Ascending t.along_m ts

unfoldable pub InPathOrder : List Trigger → Type 0
unfolding Ascending
InPathOrder [] = Unit
InPathOrder (t ∷ ts) = Ascending t.along_m ts

abbrev pub Beyond : Float → Trigger → Type 0
Beyond start t = lez t.along_m start ≡ false

pub lez-beyond : (a b c : Float) → lez b a ≡ false → lez b c ≡ true → lez c a ≡ false
lez-beyond a b c h k = elim (Bool-cases (lez c a)) [
  | inr above ↦ above
  | inl below ↦ absurd (cc (lez_trans b c a k below))
]

All-Beyond :
    (start : Float) (t : Trigger) (ts : List Trigger)
    → Beyond start t
    → Ascending t.along_m ts
    → All (Beyond start) ts
unfolding Ascending
All-Beyond start t [] h asc = tt
All-Beyond start t (u ∷ us) h asc =
    let above = lez-beyond start t.along_m u.along_m h asc.0 in
    (above, All-Beyond start u us above asc.1)

Ascending-InPathOrder : (start : Float) (ts : List Trigger) → Ascending start ts → InPathOrder ts
unfolding Ascending InPathOrder
Ascending-InPathOrder start [] asc = tt
Ascending-InPathOrder start (t ∷ ts) asc = asc.1

-- What the triggers between two distances are.
abbrev pub IsBetween : List Trigger → Float → Float → List Trigger → Type 0
IsBetween all start end ts =
    InPathOrder ts
    × All (Beyond start) ts
    × All (λ t. lez t.along_m end ≡ true) ts
    × All (λ t. Memᴰ t all) ts

upto-Ascending :
    (end start : Float) (ts : List Trigger) → Ascending start ts → Ascending start (upto end ts)
unfolding Ascending upto
upto-Ascending end start [] o = tt
upto-Ascending end start (t ∷ ts) o = elim (Bool-cases (lez t.along_m end)) [
  | inr past ↦ rw past tt
  | inl near ↦ rw near (o.0, upto-Ascending end t.along_m ts o.1)
]

upto-IsBetween :
    (all : List Trigger) (start end : Float) (ts : List Trigger)
    → InPathOrder ts
    → All (Beyond start) ts
    → All (λ t. Memᴰ t all) ts
    → IsBetween all start end (upto end ts)
unfolding upto InPathOrder
upto-IsBetween all start end [] o b m = (tt, tt, tt, tt)
upto-IsBetween all start end (t ∷ ts) o b m = elim (Bool-cases (lez t.along_m end)) [
  | inr past ↦ rw past (tt, tt, tt, tt)
  | inl near ↦ rw near (
      let (_, bs, es, ms) =
        upto-IsBetween all start end ts (Ascending-InPathOrder t.along_m ts o) b.1 m.1 in
      (upto-Ascending end t.along_m ts o, (b.0, bs), (near, es), (m.0, ms)))
]

beyond-IsBetween :
    (all : List Trigger) (start : Float) (ts : List Trigger)
    → InPathOrder ts
    → All (λ t. Memᴰ t all) ts
    → InPathOrder (beyond start ts)
      × All (Beyond start) (beyond start ts)
      × All (λ t. Memᴰ t all) (beyond start ts)
unfolding beyond InPathOrder
beyond-IsBetween all start [] o m = (tt, tt, tt)
beyond-IsBetween all start (t ∷ ts) o m = elim (Bool-cases (lez t.along_m start)) [
  | inl behind ↦
      rw behind (beyond-IsBetween all start ts (Ascending-InPathOrder t.along_m ts o) m.1)
  | inr ahead ↦ rw ahead (o, (ahead, All-Beyond start t ts ahead o), m)
]

pub All-map :
    {A : Type 0} (P Q : A → Type 0) (xs : List A) → ((a : A) → P a → Q a) → All P xs → All Q xs
All-map P Q [] f h = tt
All-map P Q (x ∷ xs) f h = (f x h.0, All-map P Q xs f h.1)

All-own : (ts : List Trigger) → All (λ t. Memᴰ t ts) ts
All-own [] = tt
All-own (t ∷ ts) = (Memᴰ.head refl, All-map _ _ ts (λ u m. Memᴰ.tail m) (All-own ts))

pub triggers_between-IsBetween :
    (plan : Plan) (start end : Float)
    → InPathOrder plan.triggers
    → IsBetween plan.triggers start end (triggers_between plan start end)
unfolding triggers_between
triggers_between-IsBetween plan start end o =
    let (p, b, m) = beyond-IsBetween plan.triggers start plan.triggers o (All-own plan.triggers) in
    upto-IsBetween plan.triggers start end (beyond start plan.triggers) p b m

pub Ascending-from :
    (start : Float) (ts : List Trigger)
    → InPathOrder ts
    → All (Beyond start) ts
    → Ascending start ts
unfolding Ascending InPathOrder
Ascending-from start [] o b = tt
Ascending-from start (t ∷ ts) o b = (lez_total t.along_m start b.0, o)
