-- ===== src/Timeline/Crossings.antt =====
-- What `commit` (src/obehy/realtime/timeline/commit.py) decides: which crossings, in which order.
use obehy.Prelude.{
  ◌≡◌, refl, ap, ◌∙◌, Bool, true, false, Option, none, some, List, [], ◌∷◌, ◌⊎◌, inl, inr,
  Bool-cases, is_some, arith, ltb→le, leb, ◌+◌, ==→eq, ltb,
}
use obehy.Prelude.Lists.{All, any, get_elem?}
use obehy.Prelude.Raises.{Gives, Returns, bind-Returns, then-Gives}
use obehy.Model.Facts.{Instant, Interval}
use obehy.Model.Journey.{Placement, Hypothesis}
use obehy.Policy.{ProgressPolicy}
use obehy.Timeline.Monotone.{NotBefore}
use obehy.Timeline.Between.{All-map}
use obehy.Timeline.Timetable.{Trigger, Plan, scheduled_time, time_of}
use obehy.Timeline.Commit.Outcome.{undecided, unseen, crosses}
use obehy.Timeline.Commit.Method.{inferred}
use obehy.Timeline.Commit.{
  Crossing, no_sooner, is_origin, Outcome, unobserved, recorded, observed, judged, outcome,
  left_origin,
}
use obehy.Timeline.Brackets.{Bracket, times_eq, fix_times, bracket_of, seen_before, disagree}
use obehy.Timeline.Placing.{crossing_time, inferred_at, before_first}

-- The crossings' times never decrease from `before` on, and the last of them is `last`.
unfoldable pub Ascends : Option Instant → List Crossing → Option Instant → Type 0
unfolding NotBefore
Ascends before [] last = last ≡ before
Ascends before (c ∷ cs) last = NotBefore before (some c.at) × Ascends (some c.at) cs last

-- The fixes between which a reading crossed the trigger.
abbrev pub fixes_of : Trigger → Hypothesis → Option (Instant × Instant)
fixes_of t h = fix_times (bracket_of h.history t.along_m)

-- The crossing is the trigger's, and the readings agree on it: each crossed the trigger between
-- the crossing's fixes; or none crossed it between two fixes, it is the origin's departure, and
-- the crossing is inferred.
unfoldable pub Agreed : List Hypothesis → Trigger → Crossing → Type 0
unfolding is_origin fix_times bracket_of
Agreed deciding t c =
    (c.call ≡ t.call)
    × (c.kind ≡ t.kind)
    × (All (λ k. fixes_of t k ≡ some (c.fixes.lo, c.fixes.hi)) deciding
        ⊎ ((is_origin t ≡ true)
            × (c.method ≡ some inferred)
            × All (λ k. fixes_of t k ≡ none) deciding))

unfoldable pub Decides : List Hypothesis → Trigger → Option Instant → Outcome → Type 0
unfolding Agreed NotBefore
Decides deciding t before undecided = Unit
Decides deciding t before unseen = Unit
Decides deciding t before (crosses c) = NotBefore before (some c.at) × Agreed deciding t c

no_sooner-NotBefore :
    (before : Option Instant) (at : Instant) → NotBefore before (some (no_sooner before at))
unfolding no_sooner NotBefore
no_sooner-NotBefore none at = tt
no_sooner-NotBefore (some t) at = elim (Bool-cases (ltb at t)) [
  | inl early ↦ rw early (omega arith)
  | inr late ↦ rw late (ltb→le at t late)
]

any-All : {A : Type 0} (p : A → Bool) (xs : List A) → any p xs ≡ false → All (λ x. p x ≡ false) xs
any-All p [] h = tt
any-All p (x ∷ xs) h = elim (Bool-cases (p x)) [
  | inl holds ↦ absurd (ground (arith, holds))
  | inr fails ↦ (fails, any-All p xs (ground (arith, fails)))
]

-- Readings that do not disagree have the first one's fixes.
disagree-All :
    (t : Trigger) (h : Hypothesis) (hs : List Hypothesis)
    → disagree t h hs ≡ false
    → All (λ k. fixes_of t k ≡ fixes_of t h) (h ∷ hs)
unfolding disagree
disagree-All t h hs e =
    (refl, All-map _ _ hs (λ k same. ==→eq _ _ (ground (arith, same))) (any-All _ hs e))

unfoldable pub HasHistory : List Placement → Type 0
HasHistory [] = ⊥
HasHistory (p ∷ ps) = Unit

-- The trigger is one of a call of the timetable.
abbrev pub HasCall : Plan → Trigger → Type 0
HasCall plan t = is_some (get_elem? plan.scheduled t.call) ≡ true

module _ (plan : Plan) (policy : ProgressPolicy) where
  scheduled_time-Returns :
      (t : Trigger) → HasCall plan t → Returns (scheduled_time plan t.call t.kind)
  unfolding scheduled_time time_of
  scheduled_time-Returns t h = go (get_elem? plan.scheduled t.call) refl
    where
      go :
          (o : Option (Option Instant × Option Instant))
          → get_elem? plan.scheduled t.call ≡ o
          → Returns (scheduled_time plan t.call t.kind)
      go none e = absurd (cc (e, h))
      go (some times) e = (time_of t.kind times, rw (scheduled_time, e) refl)

  crossing_time-Returns :
      (b : Bracket) (t : Trigger) → HasCall plan t → Returns (crossing_time plan policy b t)
  unfolding crossing_time
  crossing_time-Returns (before, after) t h =
      bind-Returns _ _ (scheduled_time-Returns t h) (λ due. (_, refl))

  recorded-Returns :
      (b : Bracket) (t : Trigger) (when : Instant)
      → HasCall plan t
      → Returns (recorded plan policy b t when)
  unfolding recorded inferred_at
  recorded-Returns (before, after) t when h =
      elim (Bool-cases (leb after.at (before.at + policy.max_event_interval_s))) [
        | inl close ↦ rw close (_, refl)
        | inr far ↦ rw far (
            bind-Returns _ _ (bind-Returns _ _ (scheduled_time-Returns t h) (λ due. (_, refl)))
              (λ found. (_, refl)))
      ]

  observed-Gives :
      (deciding : List Hypothesis) (b : Bracket) (t : Trigger) (crossed_at : Option Instant)
      → HasCall plan t
      → All (λ k. fixes_of t k ≡ fix_times (some b)) deciding
      → Gives (observed plan policy b t crossed_at) (Decides deciding t crossed_at)
  unfolding observed Decides Agreed fix_times
  observed-Gives deciding (before, after) t crossed_at h agree =
      then-Gives {Q = Decides deciding t crossed_at} _ _ (crossing_time-Returns (before, after) t h)
        (λ when.
          then-Gives {Q = Decides deciding t crossed_at} _ _
            (recorded-Returns (before, after) t (no_sooner crossed_at when) h)
            (λ how. (_, refl, (no_sooner-NotBefore crossed_at when, (refl, refl, inl agree)))))

  left_origin-Decides :
      (deciding : List Hypothesis) (first : Placement) (t : Trigger) (crossed_at : Option Instant)
      → is_origin t ≡ true
      → All (λ k. fixes_of t k ≡ none) deciding
      → (found : Option Interval)
      → Decides deciding t crossed_at (left_origin first t crossed_at found)
  unfolding left_origin Decides Agreed
  left_origin-Decides deciding first t crossed_at origin agree none = tt
  left_origin-Decides deciding first t crossed_at origin agree (some interval) =
      (no_sooner-NotBefore crossed_at _, (refl, refl, inr (origin, refl, agree)))

  unobserved-Gives :
      (deciding : List Hypothesis) (h : Hypothesis) (t : Trigger) (crossed_at : Option Instant)
      → HasHistory h.history
      → HasCall plan t
      → All (λ k. fixes_of t k ≡ none) deciding
      → Gives (unobserved plan policy h t crossed_at) (Decides deciding t crossed_at)
  unfolding unobserved HasHistory before_first Decides
  unobserved-Gives deciding h t crossed_at seen call agree = go h.history refl seen
    where
      go :
          (ps : List Placement)
          → h.history ≡ ps
          → HasHistory ps
          → Gives (unobserved plan policy h t crossed_at) (Decides deciding t crossed_at)
      go [] e s = absurd s
      go (p ∷ ps) e s = rw e (elim (Bool-cases (is_origin t)) [
        | inr later ↦ rw later (_, refl, tt)
        | inl origin ↦ rw origin (
            then-Gives (before_first plan policy p t) _
              (bind-Returns _ _ (scheduled_time-Returns t call) (λ due. (_, refl)))
              (λ found. (_, refl, left_origin-Decides deciding p t crossed_at origin agree found)))
      ])

  pub outcome-Gives :
      (h : Hypothesis) (hs : List Hypothesis) (t : Trigger) (crossed_at : Option Instant)
      → HasHistory h.history
      → HasCall plan t
      → Gives (outcome plan policy h hs t crossed_at) (Decides (h ∷ hs) t crossed_at)
  unfolding outcome judged Decides
  outcome-Gives h hs t crossed_at seen call = elim (Bool-cases (disagree t h hs)) [
    | inl apart ↦ rw apart (_, refl, tt)
    | inr together ↦
        rw together (go (bracket_of h.history t.along_m) refl (disagree-All t h hs together))
  ]
    where
      go :
          (o : Option Bracket)
          → bracket_of h.history t.along_m ≡ o
          → All (λ k. fixes_of t k ≡ fixes_of t h) (h ∷ hs)
          → Gives (judged plan policy h hs t crossed_at o) (Decides (h ∷ hs) t crossed_at)
      go none e same = elim (Bool-cases (any (λ k. seen_before k.history t.along_m) (h ∷ hs))) [
        | inl ahead ↦ rw ahead (_, refl, tt)
        | inr passed ↦ rw passed (
            unobserved-Gives (h ∷ hs) h t crossed_at seen call
              (All-map _ _ (h ∷ hs) (λ k q. q ∙ ap fix_times e) same))
      ]
      go (some bracket) e same =
          observed-Gives (h ∷ hs) bracket t crossed_at call
            (All-map _ _ (h ∷ hs) (λ k q. q ∙ ap fix_times e) same)
