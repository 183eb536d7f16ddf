-- ===== src/Timeline/Brackets.antt =====
-- The readings that decide a commit, what brackets a crossing in them, and how a commit cuts them
-- (`_deciding`, `_bracket`, `_before` and `_cut` of src/obehy/realtime/timeline/commit.py).
use obehy.Prelude.{
  ◌+◌, Bool, false, not, ◌&&◌, ◌||◌, Option, none, some, List, [], ◌∷◌, ◌==◌, nat_eq, ltb, min,
  if◌then◌else◌, map, Eq,
}
use obehy.Prelude.Equal.{eq_of_discrete}
use obehy.Prelude.Ints.{ℤ-discrete, ltz, lez, neg, minz}
use obehy.Prelude.Lists.{length, take, any, keep_if}
use obehy.Prelude.Raises.{Raises, ◌>>=◌}
use native.Mathlib.Decide.{ℕ_discrete}
use obehy.Model.Facts.{Instant, Float}
use obehy.Model.Journey.{Placement, Hypothesis}
use obehy.Policy.{ProgressPolicy}
use obehy.Timeline.Timetable.{Trigger}

abbrev pub Bracket : Type 0
Bracket = Placement × Placement

-- `_fix_times`
unfoldable pub fix_times : Option Bracket → Option (Instant × Instant)
fix_times none = none
fix_times (some (before, after)) = some (before.at, after.at)

unfoldable pub Times-discrete : Discrete (Option (Instant × Instant))
Times-discrete = hlevel ℕ_discrete

instance abbrev pub times_eq : Eq (Option (Instant × Instant))
times_eq = eq_of_discrete Times-discrete

unfoldable pub Hypothesis-discrete : Discrete Hypothesis
Hypothesis-discrete = hlevel (ℕ_discrete, ℤ-discrete)

instance abbrev pub hypothesis_eq : Eq Hypothesis
hypothesis_eq = eq_of_discrete Hypothesis-discrete

-- `_bracket`
unfoldable pub bracket_of : List Placement → Float → Option Bracket
bracket_of [] along = none
bracket_of (before ∷ []) along = none
bracket_of (before ∷ after ∷ history) along =
    let rest = bracket_of (after ∷ history) along in
    if ltz before.along_m along && lez along after.along_m then some (before, after) else rest

unfoldable pub last_of : Placement → List Placement → Placement
last_of p [] = p
last_of p (q ∷ history) = last_of q history

-- `_before`
unfoldable pub seen_before : List Placement → Float → Bool
unfolding last_of
seen_before [] along = false
seen_before (p ∷ history) along = ltz p.along_m along && ltz (last_of p history).along_m along

-- The history from its last fix at or behind the point on, if it has one.
unfoldable pub from_last : Float → List Placement → Option (List Placement)
from_last frontier [] = none
from_last frontier (p ∷ history) = elim (from_last frontier history) [
  | some rest ↦ some rest
  | none ↦ if lez p.along_m frontier then some (p ∷ history) else none
]

-- `_cut`
unfoldable pub cut : Float → Hypothesis → Hypothesis
unfolding from_last
cut frontier h = elim (from_last frontier h.history) [
  | none ↦ h
  | some history ↦ record h { history = history }
]

unfoldable pub first_at : List Placement → Raises Instant
first_at [] = none
first_at (p ∷ history) = some p.at

-- When the oldest history starts; an error without readings, or for one without history.
unfoldable pub oldest_of : List Hypothesis → Raises Instant
unfolding first_at
oldest_of [] = none
oldest_of (h ∷ []) = first_at h.history
oldest_of (h ∷ k ∷ hs) =
    first_at h.history >>= λ at. oldest_of (k ∷ hs) >>= λ rest. some (min at rest)

-- `_deciding`
unfoldable pub deciding_of : List Hypothesis → Instant → ProgressPolicy → Raises (List Hypothesis)
unfolding oldest_of
deciding_of beam at policy =
    let deciding = keep_if (λ h. lez (neg policy.agree_within) h.log_p) beam in
    oldest_of deciding >>= λ oldest. some (
      if ltb 1 (length deciding) && ltb (oldest + policy.max_commit_lag_s) at
      then take 1 deciding
      else deciding)

-- The least distance of the readings `h, …`.
unfoldable pub frontier_of : Hypothesis → List Hypothesis → Float
frontier_of h [] = h.along_m
frontier_of h (k ∷ hs) = minz h.along_m (frontier_of k hs)

-- Some reading brackets the crossing with other fixes than the first.
unfoldable pub disagree : Trigger → Hypothesis → List Hypothesis → Bool
unfolding bracket_of fix_times
disagree trigger h hs =
    let first = fix_times (bracket_of h.history trigger.along_m) in
    any (λ k. not (fix_times (bracket_of k.history trigger.along_m) == first)) hs

-- The readings that do not contradict the commit, cut at it.
unfoldable pub survivors : Float → List Hypothesis → List Hypothesis → List Hypothesis
unfolding cut
survivors reached deciding beam =
    map (cut reached) (keep_if (λ h. any (λ k. k == h) deciding || lez reached h.along_m) beam)
