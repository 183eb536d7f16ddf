-- ===== src/Runtime/Rests.antt =====
-- The disk guard comes to rest: each step deletes a day, so the loop ends.
use obehy.Prelude.{
  ℕ, zero, suc, ◌+◌, ◌*◌, ◌≤◌, ◌<◌, ◌≡◌, refl, subst, Bool, true, Option, none, some, List, [], ◌∷◌,
  ltb, leb, arith, inl, inr, Bool-cases, ◌||◌, ◌==◌, nat_eq, ◌⊎◌,
}
use obehy.Prelude.Lists.{length, keep_if, contains}
use obehy.Model.Facts.{Date}
use obehy.Runtime.Guard.{
  GuardPolicy, gb, Step, raw, history, insert_day, sorted_set, oldest, next_step, after_step,
  guard_disk,
}

contains-insert_day :
    (x d : Date) (es : List Date)
    → contains x (insert_day d es) ≡ true
    → (d == x || contains x es) ≡ true
unfolding insert_day
contains-insert_day x d [] h = ground arith
contains-insert_day x d (e ∷ es) h = ground (arith, contains-insert_day x d es)

contains-sorted_set :
    (x : Date) (ds : List Date) → contains x (sorted_set ds) ≡ true → contains x ds ≡ true
unfolding sorted_set
contains-sorted_set x [] h = h
contains-sorted_set x (d ∷ ds) h =
    ground (arith, contains-insert_day x d (sorted_set ds), contains-sorted_set x ds)

length-keep_if_le : (p : Date → Bool) (ds : List Date) → length (keep_if p ds) ≤ length ds
length-keep_if_le p [] = omega arith
length-keep_if_le p (d ∷ ds) = ground (arith, length-keep_if_le p ds)

-- Deleting the days up to one of them leaves fewer.
length-keep_if_lt :
    (x : Date) (ds : List Date) → contains x ds ≡ true → length (keep_if (ltb x) ds) < length ds
length-keep_if_lt x [] h = cc
length-keep_if_lt x (d ∷ ds) h =
    ground (arith, length-keep_if_lt x ds, length-keep_if_le (ltb x) ds)

-- The day that is deleted is one of the days.
oldest-contains :
    (kind : Date → Step) (minimum : ℕ) (ds : List Date) (rest : Option Step) (step : Step)
    → oldest kind minimum ds rest ≡ some step
    → ((d : Date) × (contains d ds ≡ true) × (kind d ≡ step)) ⊎ (rest ≡ some step)
unfolding oldest
oldest-contains kind minimum [] rest step e = inr e
oldest-contains kind minimum (d ∷ ds) rest step e =
    elim (Bool-cases (ltb minimum (length (d ∷ ds)))) [
      | inl more ↦ inl (d, ground arith, ground arith)
      | inr few ↦ inr (ground arith)
    ]

module _ (free : List Date → List Date → ℕ) (guard : GuardPolicy) where
  abbrev total : List Date × List Date → ℕ
  total days = length days.0 + length days.1

  next_step-total :
      (days : List Date × List Date) (step : Step)
      → next_step (free days.0 days.1) guard days.0 days.1 ≡ some step
      → total (after_step free guard step days) < total days
  unfolding next_step after_step
  next_step-total days step e = elim (Bool-cases (leb (guard.free_gb * gb) (free days.0 days.1))) [
    | inl enough ↦ let p : none ≡ some step = rw (next_step, enough) at e in absurd (cc)
    | inr short ↦
        elim (oldest-contains raw guard.min_raw_days (sorted_set days.0)
          (oldest history guard.min_history_days (sorted_set days.1) none) step
          (rw (next_step, short) at e)) [
            | inl (d, there, same) ↦
                subst (λ s. total (after_step free guard s days) < total days) same
                  (omega (arith, length-keep_if_lt d days.0 (contains-sorted_set d days.0 there)))
            | inr second ↦
                elim (oldest-contains history guard.min_history_days (sorted_set days.1) none step
                  second) [
                    | inl (d, there, same) ↦
                        subst (λ s. total (after_step free guard s days) < total days) same
                          (omega (
                            arith,
                            length-keep_if_lt d days.1 (contains-sorted_set d days.1 there),
                          ))
                    | inr nothing ↦ absurd (cc)
                  ]
          ]
  ]

  guard_disk-none :
      (n : ℕ) (days : List Date × List Date)
      → total days < n
      → let rest = guard_disk free guard n days in
        next_step (free rest.0 rest.1) guard rest.0 rest.1 ≡ none
  unfolding guard_disk
  guard_disk-none zero days h = absurd (omega (arith, h))
  guard_disk-none (suc n) days h =
      go (next_step (free days.0 days.1) guard days.0 days.1) refl (λ step e.
        guard_disk-none n (after_step free guard step days)
          (omega (arith, h, next_step-total days step e)))
    where
      go :
          (s : Option Step)
          → next_step (free days.0 days.1) guard days.0 days.1 ≡ s
          → ((step : Step)
              → next_step (free days.0 days.1) guard days.0 days.1 ≡ some step
              → let rest = guard_disk free guard n (after_step free guard step days) in
                next_step (free rest.0 rest.1) guard rest.0 rest.1 ≡ none)
          → let rest = guard_disk free guard (suc n) days in
            next_step (free rest.0 rest.1) guard rest.0 rest.1 ≡ none
      go none q ih = rw (guard_disk, q) q
      go (some step) q ih = rw (guard_disk, q) (ih step q)

  -- One pass more than there are days is enough: the loop then has nothing left to delete, whatever
  -- free space the system reports after each deletion.
  pub guard_disk-rests :
      (days : List Date × List Date)
      → let rest = guard_disk free guard (length days.0 + length days.1 + 1) days in
        next_step (free rest.0 rest.1) guard rest.0 rest.1 ≡ none
  guard_disk-rests days = guard_disk-none (total days + 1) days (omega arith)
