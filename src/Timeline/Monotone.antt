-- ===== src/Timeline/Monotone.antt =====
-- The repair of the estimates orders them, moves none back, and has nothing left to do after.
use obehy.Prelude.{
  ◌≤◌, ◌+◌, ◌-◌, ◌≡◌, refl, ap, Bool, true, false, Option, none, some, List, [], ◌∷◌, ltb, leb,
  arith, if◌then◌else◌, inl, inr, Bool-cases, ltb→le, ltb→lt, leb→le, min, max,
}
use obehy.Model.Facts.{Instant, Interval}
use obehy.Model.Journey.{CallState, Instance}
use obehy.Policy.{RailPolicy}
use obehy.Timeline.Estimate.{held, later, repair, monotone, narrowed, merge}

-- The second time, where both are known, is not before the first.
unfoldable pub NotBefore : Option Instant → Option Instant → Type 0
NotBefore (some l) (some t) = l ≤ t
NotBefore _ _ = Unit

-- The estimated times of the calls, arrival before departure, call after call, never decrease
-- from the time `latest` on.
unfoldable pub Ordered : Option Instant → List CallState → Type 0
Ordered latest [] = Unit
Ordered latest (c ∷ cs) =
    NotBefore latest c.estimated_arrival
    × NotBefore (later latest c.estimated_arrival) c.estimated_departure
    × Ordered (later (later latest c.estimated_arrival) c.estimated_departure) cs

-- The same time is known, and it is not earlier.
unfoldable pub NoSooner : Option Instant → Option Instant → Type 0
NoSooner none none = Unit
NoSooner (some s) (some t) = s ≤ t
NoSooner _ _ = ⊥

-- Call by call, the same times are known, and none is earlier.
unfoldable pub Later : List CallState → List CallState → Type 0
Later [] [] = Unit
Later (c ∷ cs) (d ∷ ds) =
    NoSooner c.estimated_arrival d.estimated_arrival
    × NoSooner c.estimated_departure d.estimated_departure
    × Later cs ds
Later _ _ = ⊥

held-NotBefore : (latest t : Option Instant) → NotBefore latest (held latest t)
unfolding NotBefore held
held-NotBefore none none = tt
held-NotBefore (some l) none = tt
held-NotBefore none (some t) = tt
held-NotBefore (some l) (some t) = elim (Bool-cases (ltb t l)) [
  | inl early ↦ rw early (omega arith)
  | inr late ↦ rw late (ltb→le t l late)
]

held-NoSooner : (latest t : Option Instant) → NoSooner t (held latest t)
unfolding NoSooner held
held-NoSooner none none = tt
held-NoSooner (some l) none = tt
held-NoSooner none (some t) = omega arith
held-NoSooner (some l) (some t) = elim (Bool-cases (ltb t l)) [
  | inl early ↦ rw early (omega (arith, ltb→lt t l early))
  | inr late ↦ rw late (omega arith)
]

held-eq : (latest t : Option Instant) → NotBefore latest t → held latest t ≡ t
unfolding NotBefore held
held-eq none none h = refl
held-eq (some l) none h = refl
held-eq none (some t) h = refl
held-eq (some l) (some t) h = let in_order : ltb t l ≡ false = ground arith in rw in_order refl

repair-Ordered : (latest : Option Instant) (cs : List CallState) → Ordered latest (repair latest cs)
unfolding Ordered repair
repair-Ordered latest [] = tt
repair-Ordered latest (c ∷ cs) =
    let a = held latest c.estimated_arrival in
    let d = held (later latest a) c.estimated_departure in
    (
      held-NotBefore latest c.estimated_arrival,
      held-NotBefore _ c.estimated_departure,
      repair-Ordered (later (later latest a) d) cs,
    )

repair-Later : (latest : Option Instant) (cs : List CallState) → Later cs (repair latest cs)
unfolding Later repair
repair-Later latest [] = tt
repair-Later latest (c ∷ cs) =
    let a = held latest c.estimated_arrival in
    let d = held (later latest a) c.estimated_departure in
    (
      held-NoSooner latest c.estimated_arrival,
      held-NoSooner _ c.estimated_departure,
      repair-Later (later (later latest a) d) cs,
    )

repair-eq :
    (latest : Option Instant) (cs : List CallState) → Ordered latest cs → repair latest cs ≡ cs
unfolding Ordered repair
repair-eq latest [] h = refl
repair-eq latest (c ∷ cs) h =
    let (a, d, rest) = h in
    rw
      (
        held-eq latest c.estimated_arrival a,
        held-eq (later latest c.estimated_arrival) c.estimated_departure d,
        repair-eq (later (later latest c.estimated_arrival) c.estimated_departure) cs rest,
      )
      refl

-- The estimates that `monotone` emits never decrease along the trip.
pub monotone-Ordered : (i : Instance) → Ordered none (monotone i).calls
unfolding monotone
monotone-Ordered i = repair-Ordered none i.calls

-- `monotone` keeps which times are known, moves none of them back, and changes nothing when it is
-- applied again.
pub monotone-Later :
    (i : Instance) → Later i.calls (monotone i).calls × (monotone (monotone i) ≡ monotone i)
unfolding monotone
monotone-Later i = (
  repair-Later none i.calls,
  ap (λ cs. record i { calls = cs })
      (repair-eq none (repair none i.calls) (repair-Ordered none i.calls)),
)

narrowed-within :
    (point measured : Interval) (rail : RailPolicy)
    → point.lo ≤ point.hi
    → let r = narrowed point measured rail in
      (r.lo ≤ r.hi)
      × (point.lo - rail.event_tolerance_s ≤ r.lo)
      × (r.hi ≤ point.hi + rail.event_tolerance_s)
unfolding narrowed
narrowed-within point measured rail h =
    let lo = max measured.lo (point.lo - rail.event_tolerance_s) in
    let hi = min measured.hi (point.hi + rail.event_tolerance_s) in
    elim (Bool-cases (leb lo hi)) [
      | inl meet ↦ rw meet (leb→le lo hi meet, omega arith, omega arith)
      | inr apart ↦ rw apart (h, omega arith, omega arith)
    ]

-- Two events merge into a proper interval that lies within the point's minute, widened by the
-- tolerance, whichever of the two is the point.
pub merge-within :
    (existing new : Interval) (new_is_point : Bool) (rail : RailPolicy)
    → existing.lo ≤ existing.hi
    → new.lo ≤ new.hi
    → ((merge (some existing) new new_is_point rail).lo
        ≤ (merge (some existing) new new_is_point rail).hi)
      × ((if new_is_point then new.lo else existing.lo) - rail.event_tolerance_s
          ≤ (merge (some existing) new new_is_point rail).lo)
      × ((merge (some existing) new new_is_point rail).hi
          ≤ (if new_is_point then new.hi else existing.hi) + rail.event_tolerance_s)
unfolding merge
merge-within existing new true rail h k = narrowed-within new existing rail k
merge-within existing new false rail h k = narrowed-within existing new rail h
