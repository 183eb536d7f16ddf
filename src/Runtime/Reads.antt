-- ===== src/Runtime/Reads.antt =====
-- What the plan of a minute's reads guarantees: at most the budget, the most urgent first, and
-- every wanted station read or counted as dropped.
use mathlib.Core.List.{Perm}
use obehy.Prelude.{
  ℕ, zero, suc, ◌+◌, ◌-◌, ◌≤◌, ◌<◌, ◌≡◌, ltb→lt, ltb→le, refl, String, true, List, [], ◌∷◌, ◌++◌,
  map, ltb, arith, ◌⊎◌, inl, inr, Bool-cases, ap, Option, none, some,
}
use obehy.Prelude.Lists.{length, take, drop, All, length-take_le}
use obehy.Prelude.Sort.{sort_by, sort_by-perm, sort_by-Sorted, Sorted, IsOrder}
use obehy.Prelude.Texts.{str_lt-asym, not_lt_trans}
use obehy.Model.Facts.{Instant}
use obehy.Runtime.Demand.{BoardPolicy, ReadLog, Wanted, wanted, sooner, plan_reads, budget}

sooner_order : IsOrder sooner
unfolding sooner
sooner_order = record {
  total = λ x y h. ground (arith, str_lt-asym x.station y.station, str_lt-asym y.station x.station);
  transitive = λ x y z h k. ground (arith, not_lt_trans x.station y.station z.station);
}

take-drop : {A : Type 0} (n : ℕ) (xs : List A) → take n xs ++ drop n xs ≡ xs
take-drop zero xs = refl
take-drop (suc n) [] = refl
take-drop (suc n) (x ∷ xs) = ap (λ ys. x ∷ ys) (take-drop n xs)

length-drop : {A : Type 0} (n : ℕ) (xs : List A) → length (drop n xs) ≡ length xs - n
length-drop zero xs = omega arith
length-drop (suc n) [] = omega arith
length-drop (suc n) (x ∷ xs) = omega (arith, length-drop n xs)

-- Each of the first is sooner than each of the rest.
abbrev Before : List Wanted → List Wanted → Type 0
Before xs ys = All (λ x. All (λ y. sooner x y ≡ true) ys) xs

All-drop : (P : Wanted → Type 0) (n : ℕ) (xs : List Wanted) → All P xs → All P (drop n xs)
All-drop P zero xs h = h
All-drop P (suc n) [] h = tt
All-drop P (suc n) (x ∷ xs) h = All-drop P n xs h.1

Sorted-Before : (n : ℕ) (xs : List Wanted) → Sorted sooner xs → Before (take n xs) (drop n xs)
Sorted-Before zero xs s = tt
Sorted-Before (suc n) [] s = tt
Sorted-Before (suc n) (x ∷ xs) s =
    (All-drop (λ y. sooner x y ≡ true) n xs s.0, Sorted-Before n xs s.1)

full : {A : Type 0} (n : ℕ) (xs : List A) → (drop n xs ≡ []) ⊎ (length (take n xs) ≡ n)
full zero xs = inr refl
full (suc n) [] = inl refl
full (suc n) (x ∷ xs) = elim (full n xs) [ inl e ↦ inl e | inr e ↦ inr (omega (arith, e)) ]

-- A plan of reads: the chosen stations, at most the budget of them, each more urgent than every
-- station that is dropped; the dropped are counted, and none is while there is budget left.
pub record Plan (now : Instant) (due : List (String × List Instant)) (log : ReadLog)
    (policy : BoardPolicy) (budget : ℕ) (plan : List String × ReadLog) : Type 0 where
  pub chosen : List Wanted
  pub dropped : List Wanted
  pub every : Perm (chosen ++ dropped) (wanted now log policy due)
  pub read : plan.0 ≡ map (λ (w : Wanted). w.station) chosen
  pub within : length chosen ≤ budget
  pub urgent : Before chosen dropped
  pub counted : plan.1.dropped ≡ log.dropped + length dropped
  pub spent : (dropped ≡ []) ⊎ (length chosen ≡ budget)

-- `plan_reads` chooses, of the stations that are wanted, at most the budget, each at least as
-- urgent as every station that it drops; it adds the dropped to the log's count, and drops none
-- unless the budget is spent.
pub plan_reads-Plan :
    (now : Instant) (due : List (String × List Instant)) (log : ReadLog) (policy : BoardPolicy)
    (budget : ℕ)
    → Plan now due log policy budget (plan_reads now due log policy budget)
unfolding plan_reads
plan_reads-Plan now due log policy budget =
    let all = sort_by sooner (wanted now log policy due) in
    record {
      chosen = take budget all;
      dropped = drop budget all;
      every = rw (take-drop budget all) (sort_by-perm sooner (wanted now log policy due));
      read = refl;
      within = length-take_le budget all;
      urgent =
          Sorted-Before budget all (sort_by-Sorted sooner sooner_order (wanted now log policy due));
      counted = rw (length-drop budget all) refl;
      spent = full budget all;
    }

-- A slowdown that is set lasts until its time.
unfoldable pub IsSlow : Option Instant → Instant → Type 0
IsSlow none now = ⊥
IsSlow (some until) now = now < until

-- With a ceiling of at least one read, the budget is at least one read and at most the ceiling.
-- When no slowdown lasts it is the whole ceiling; while one lasts it is half the ceiling, rounded
-- down, or the one read that is left of a smaller ceiling.
pub budget-bounds :
    (policy : BoardPolicy) (slow_until : Option Instant) (now : Instant)
    → 1 ≤ policy.ceiling_per_min
    → (1 ≤ budget policy slow_until now)
      × (budget policy slow_until now ≤ policy.ceiling_per_min)
      × ((¬ IsSlow slow_until now × (budget policy slow_until now ≡ policy.ceiling_per_min))
          ⊎ (IsSlow slow_until now
              × (policy.ceiling_per_min
                  ≤ budget policy slow_until now + budget policy slow_until now + 1)
              × ((budget policy slow_until now ≡ 1)
                  ⊎ (budget policy slow_until now + budget policy slow_until now
                      ≤ policy.ceiling_per_min))))
unfolding budget IsSlow
budget-bounds policy none now h = (h, omega arith, inl (λ slow. slow, refl))
budget-bounds policy (some until) now h = elim (Bool-cases (ltb now until)) [
  | inl slow ↦
      rw slow
        (omega arith, omega (arith, h), inr (ltb→lt now until slow, omega arith, ground (arith, h)))
  | inr over ↦
      rw over (h, omega arith, inl (λ slow. omega (arith, slow, ltb→le now until over), refl))
]
