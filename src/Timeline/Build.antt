-- ===== src/Timeline/Build.antt =====
-- Laying a plan (`build_plan` of src/obehy/realtime/timeline/plan.py): its triggers are in path order
-- and of its calls. The zones that `stop_zones` finds are an argument.
use obehy.Prelude.{
  ℕ, zero, suc, ◌+◌, ◌<◌, ◌≤◌, ◌≡◌, refl, ap, subst, Bool, true, false, not, ◌&&◌, ◌||◌, Option,
  none, some, List, [], ◌∷◌, ◌==◌, nat_eq, ltb, is_some, arith,
}
use obehy.Prelude.Ints.{ltz, lez, lez_total, lez_trans}
use obehy.Prelude.Lists.{All, length, get_elem?}
use obehy.Prelude.Raises.{Raises, ◌>>=◌, >>=-eq-some, Gives}
use obehy.Prelude.Sort.{sort_by, Sorted, IsOrder, sort_by-Sorted, All-sort_by}
use obehy.Model.Facts.{Float, EventKind, Instant}
use obehy.Model.Journey.{Hypothesis}
use obehy.Policy.{ProgressPolicy}
use obehy.Timeline.Timetable.{StopZone, Trigger, Scheduled, Span, Plan, spans_from}
use obehy.Timeline.Between.{Ascending, InPathOrder, All-map}
use mathlib.Core.Option.{some-injective}
use obehy.Timeline.Crossings.{HasCall}
use obehy.Timeline.Brackets.{deciding_of}
use obehy.Timeline.Commit.{commit}
use obehy.Timeline.Readings.{IsReady}
use obehy.Timeline.Ordered.{IsCommit, commit-IsCommit}

unfoldable pub arrives : Trigger → Bool
arrives t = elim t.kind [ EventKind.arrival ↦ true | _ ↦ false ]

-- `(t.along_m, t.call, t.kind != "arrival") <= (u.along_m, …)`
unfoldable pub trigger_le : Trigger → Trigger → Bool
unfolding arrives
trigger_le t u =
    ltz t.along_m u.along_m
    || not (ltz u.along_m t.along_m)
      && (ltb t.call u.call || t.call == u.call && (arrives t || not (arrives u)))

unfoldable pub trigger_at : ℕ → EventKind → Option Float → List Trigger → List Trigger
trigger_at call kind none rest = rest
trigger_at call kind (some along) rest = record { along_m = along; call = call; kind = kind } ∷ rest

unfoldable pub triggers_from : ℕ → List StopZone → List Trigger
unfolding trigger_at
triggers_from call [] = []
triggers_from call (zone ∷ zones) =
    trigger_at call EventKind.arrival zone.arrival_m
      (trigger_at call EventKind.departure zone.departure_m (triggers_from (suc call) zones))

-- `build_plan`
unfoldable pub build_plan : List Float → Scheduled → List StopZone → Raises Plan
unfolding triggers_from trigger_le sort_by spans_from
build_plan distances scheduled zones = spans_from none distances scheduled zones >>= λ timetable.
    some (record {
      call_distances_m = distances;
      zones = zones;
      scheduled = scheduled;
      timetable = timetable;
      triggers = sort_by trigger_le (triggers_from 0 zones);
    })

trigger_order : IsOrder trigger_le
unfolding trigger_le lez
trigger_order = record {
  total = λ t u h. ground (arith, lez_total t.along_m u.along_m, lez_total u.along_m t.along_m);
  transitive = λ t u v h k. ground (
    arith,
    lez_trans t.along_m u.along_m v.along_m,
    lez_trans v.along_m u.along_m t.along_m,
    lez_trans v.along_m t.along_m u.along_m,
    lez_trans u.along_m v.along_m t.along_m,
  );
}

trigger_le-along : (t u : Trigger) → trigger_le t u ≡ true → lez t.along_m u.along_m ≡ true
unfolding trigger_le lez
trigger_le-along t u h = ground (arith, lez_total u.along_m t.along_m)

Sorted-Ascending :
    (t : Trigger) (ts : List Trigger)
    → All (λ u. trigger_le t u ≡ true) ts
    → Sorted trigger_le ts
    → Ascending t.along_m ts
unfolding Ascending
Sorted-Ascending t [] h s = tt
Sorted-Ascending t (u ∷ us) h s = (trigger_le-along t u h.0, Sorted-Ascending u us s.0 s.1)

Sorted-InPathOrder : (ts : List Trigger) → Sorted trigger_le ts → InPathOrder ts
unfolding InPathOrder
Sorted-InPathOrder [] s = tt
Sorted-InPathOrder (t ∷ ts) s = Sorted-Ascending t ts s.0 s.1

All-weaken :
    (m n : ℕ) (ts : List Trigger) → m ≤ n → All (λ t. t.call < m) ts → All (λ t. t.call < n) ts
All-weaken m n [] le h = tt
All-weaken m n (t ∷ ts) le h = (omega (arith, le, h.0), All-weaken m n ts le h.1)

trigger_at-below :
    (n call : ℕ) (kind : EventKind) (along : Option Float) (rest : List Trigger)
    → call < n
    → All (λ t. t.call < n) rest
    → All (λ t. t.call < n) (trigger_at call kind along rest)
unfolding trigger_at
trigger_at-below n call kind none rest lt h = h
trigger_at-below n call kind (some along) rest lt h = (lt, h)

triggers_from-below :
    (n call : ℕ) (zones : List StopZone)
    → n ≡ call + length zones
    → All (λ t. t.call < n) (triggers_from call zones)
unfolding triggers_from
triggers_from-below n call [] e = tt
triggers_from-below n call (zone ∷ zones) e =
    trigger_at-below n call EventKind.arrival zone.arrival_m _ (omega (arith, e)) (
      trigger_at-below n call EventKind.departure zone.departure_m _ (omega (arith, e))
        (triggers_from-below n (suc call) zones (omega (arith, e))))

get_elem?-below :
    {A : Type 0} (xs : List A) (k : ℕ) → k < length xs → is_some (get_elem? xs k) ≡ true
get_elem?-below [] k lt = absurd (omega (arith, lt))
get_elem?-below (x ∷ xs) zero lt = refl
get_elem?-below (x ∷ xs) (suc k) lt = get_elem?-below xs k (omega (arith, lt))

spans_from-length :
    (ds : List Float) (scheduled : Scheduled) (zones : List StopZone) (last : Option (Float × Span))
    (spans : List Span)
    → spans_from last ds scheduled zones ≡ some spans
    → length scheduled ≡ length zones
unfolding spans_from
spans_from-length (d ∷ ds) ((a, b) ∷ scheduled) (zone ∷ zones) last spans h =
    let (rest, e, _) = >>=-eq-some (spans_from _ ds scheduled zones) _ h in
    ap suc (spans_from-length ds scheduled zones _ rest e)
spans_from-length [] ((a, b) ∷ []) (zone ∷ []) none spans h = refl
spans_from-length [] ((a, b) ∷ []) (zone ∷ []) (some _) spans h = absurd (cc)
spans_from-length [] [] [] none spans h = refl
spans_from-length [] [] (zone ∷ zones) none spans h = absurd (cc)
spans_from-length [] ((a, b) ∷ []) [] none spans h = absurd (cc)
spans_from-length [] ((a, b) ∷ []) (zone ∷ z ∷ zones) none spans h = absurd (cc)
spans_from-length [] ((a, b) ∷ c ∷ scheduled) [] none spans h = absurd (cc)
spans_from-length [] ((a, b) ∷ c ∷ scheduled) (zone ∷ zones) none spans h = absurd (cc)
spans_from-length [] [] [] (some _) spans h = refl
spans_from-length [] [] (zone ∷ zones) (some _) spans h = absurd (cc)
spans_from-length [] ((a, b) ∷ []) [] (some _) spans h = absurd (cc)
spans_from-length [] ((a, b) ∷ []) (zone ∷ z ∷ zones) (some _) spans h = absurd (cc)
spans_from-length [] ((a, b) ∷ c ∷ scheduled) [] (some _) spans h = absurd (cc)
spans_from-length [] ((a, b) ∷ c ∷ scheduled) (zone ∷ zones) (some _) spans h = absurd (cc)
spans_from-length (d ∷ ds) [] [] last spans h = refl
spans_from-length (d ∷ ds) [] (zone ∷ zones) last spans h = absurd (cc)
spans_from-length (d ∷ ds) ((a, b) ∷ scheduled) [] last spans h = absurd (cc)

-- What a plan that was laid has: triggers in path order, each of a call of its timetable.
build_plan-IsLaid :
    (distances : List Float) (scheduled : Scheduled) (zones : List StopZone) (plan : Plan)
    → build_plan distances scheduled zones ≡ some plan
    → InPathOrder plan.triggers × All (HasCall plan) plan.triggers
unfolding build_plan
build_plan-IsLaid distances scheduled zones plan h =
    let (spans, e, built) = >>=-eq-some (spans_from none distances scheduled zones) _ h in
    let ts = triggers_from 0 zones in
    let same = spans_from-length distances scheduled zones none spans e in
    let below =
      All-sort_by trigger_le (λ t. t.call < length scheduled) ts
        (triggers_from-below (length scheduled) 0 zones (omega (arith, same))) in
    subst (λ p. InPathOrder p.triggers × All (HasCall p) p.triggers) (some-injective _ _ built)
      (
        Sorted-InPathOrder (sort_by trigger_le ts) (sort_by-Sorted trigger_le trigger_order ts),
        All-map _ _ (sort_by trigger_le ts) (λ t lt. get_elem?-below scheduled t.call lt) below,
      )

-- On a plan laid by `build_plan`, `commit` returns for readings that have fixes and are not all
-- negligible. It never moves the commit back; the times of the crossings never decrease, from the
-- last one before on; each crossing is of a trigger beyond the old commit and up to the new one,
-- which all deciding readings crossed between the same two fixes, or, for an inferred departure
-- from the origin, none crossed between fixes; and every deciding reading is kept, whole or cut at
-- the commit.
pub build_plan-commits :
    (distances : List Float) (scheduled : Scheduled) (zones : List StopZone) (plan : Plan)
    (policy : ProgressPolicy) (beam : List Hypothesis) (from : Float) (crossed_at : Option Instant)
    (at : Instant)
    → build_plan distances scheduled zones ≡ some plan
    → IsReady policy beam
    → Gives (commit plan policy beam from crossed_at at) (λ r.
      Gives (deciding_of beam at policy) (λ deciding. IsCommit plan deciding from crossed_at r))
build_plan-commits distances scheduled zones plan policy beam from crossed_at at built ready =
    let (ordered, calls) = build_plan-IsLaid distances scheduled zones plan built in
    commit-IsCommit plan policy ordered calls beam from crossed_at at ready
