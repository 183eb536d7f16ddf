-- ===== src/Keyed/Nearest.antt =====
-- Which of the journeys that run keyed binding chooses.
use mathlib.Core.List.{Perm}
use mathlib.Core.List.Perm
use obehy.Prelude.{
  ◌≤◌, ◌<◌, ◌≡◌, ◌≢◌, refl, true, List, [], ◌∷◌, arith, inl, inr, Bool-cases, nat_beq,
}
use obehy.Prelude.Lists.{All, keep_if}
use obehy.Prelude.Sort.{sort_by, sort_by-perm, sort_by-Sorted, Sorted, IsOrder}
use obehy.Model.Facts.{Instant}
use obehy.Model.Journey.{Reason}
use obehy.Policy.{TimePolicy}
use obehy.Keyed.{Match, Outcome, found, refused, in_window, distance, nearer, choose_first, select}

module _ (policy : TimePolicy) (at : Instant) where
  -- The nearest admissible journey, if it is the only one at its distance; otherwise why not.
  pub data Choice (running : List Match) : Outcome → Type 0 where
    nothing_runs : running ≡ [] → Choice running (refused Reason.not_active)
    none_admissible :
        running ≢ []
        → keep_if (in_window policy at) running ≡ []
        → Choice running (refused Reason.not_in_service)
    tie :
        (m n : Match) (rest : List Match)
        → Perm (keep_if (in_window policy at) running) (m ∷ n ∷ rest)
        → distance policy at m ≡ distance policy at n
        → All (λ o. distance policy at m ≤ distance policy at o) rest
        → Choice running (refused Reason.ambiguous)
    nearest :
        (m : Match) (rest : List Match)
        → Perm (keep_if (in_window policy at) running) (m ∷ rest)
        → All (λ o. distance policy at m < distance policy at o) rest
        → Choice running (found m)

  nearer_order : IsOrder (nearer policy at)
  unfolding nearer
  nearer_order = record { total = λ x y h. ground arith; transitive = λ x y z h k. ground arith }

  nearer→le :
      (m n : Match) → nearer policy at m n ≡ true → distance policy at m ≤ distance policy at n
  unfolding nearer
  nearer→le m n h = ground arith

  All-distance-le :
      (m : Match) (ns : List Match)
      → All (λ n. nearer policy at m n ≡ true) ns
      → All (λ n. distance policy at m ≤ distance policy at n) ns
  All-distance-le m [] h = tt
  All-distance-le m (n ∷ ns) h = (nearer→le m n h.0, All-distance-le m ns h.1)

  All-distance-lt :
      (m n : Match) (ns : List Match)
      → distance policy at m < distance policy at n
      → All (λ o. distance policy at n ≤ distance policy at o) ns
      → All (λ o. distance policy at m < distance policy at o) ns
  All-distance-lt m n [] h a = tt
  All-distance-lt m n (o ∷ os) h a = (omega (arith, a.0), All-distance-lt m n os h a.1)

  cons≢nil : (m : Match) (ms : List Match) → m ∷ ms ≢ []
  cons≢nil m ms e = cc

  choose_first-Choice :
      (running ms sorted : List Match)
      → running ≢ []
      → keep_if (in_window policy at) running ≡ ms
      → Perm sorted ms
      → Sorted (nearer policy at) sorted
      → Choice running (choose_first policy at sorted)
  unfolding choose_first
  choose_first-Choice running ms [] some_run e p s =
      none_admissible some_run (subst_nil (Perm.nil-eq p))
    where
      subst_nil : [] ≡ ms → keep_if (in_window policy at) running ≡ []
      subst_nil q = cc
  choose_first-Choice running ms (m ∷ []) some_run e p s = nearest m [] (rw e (Perm.symm p)) tt
  choose_first-Choice running ms (m ∷ n ∷ rest) some_run e p s =
      elim (Bool-cases (nat_beq (distance policy at m) (distance policy at n))) [
        | inl same ↦
            rw same
              (tie m n rest (rw e (Perm.symm p)) (ground arith) (All-distance-le m rest s.0.1))
        | inr apart ↦
            let first_nearer = nearer→le m n s.0.0 in
            let m_lt_n : distance policy at m < distance policy at n = ground arith in
            rw apart (
              nearest m (n ∷ rest) (rw e (Perm.symm p))
                (m_lt_n, All-distance-lt m n rest m_lt_n (All-distance-le n rest s.1.0)))
      ]

  -- Binding takes the one admissible journey that is nearer in time than every other; with
  -- several at the least distance it is ambiguous, with none admissible it is not in service,
  -- and with none running it is not active.
  pub select-Choice : (running : List Match) → Choice running (select policy at running)
  unfolding select
  select-Choice [] = nothing_runs refl
  select-Choice (m ∷ ms) =
      let admissible = keep_if (in_window policy at) (m ∷ ms) in
      choose_first-Choice (m ∷ ms) admissible (sort_by (nearer policy at) admissible)
        (cons≢nil m ms) refl (sort_by-perm (nearer policy at) admissible)
        (sort_by-Sorted (nearer policy at) nearer_order admissible)
