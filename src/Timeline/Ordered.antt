-- ===== src/Timeline/Ordered.antt =====
-- `commit` (src/obehy/realtime/timeline/commit.py) returns, moves forward only, and records the
-- crossings of the triggers it passes.
use mathlib.Core.List.{Memᴰ}
use obehy.Prelude.{
  ◌≡◌, refl, subst, true, false, Option, none, some, List, [], ◌∷◌, ◌⊎◌, inl, inr, Bool-cases,
  arith, ◌&&◌,
}
use obehy.Prelude.Ints.{lez, lez_refl, lez_trans}
use obehy.Prelude.Items.{All-Memᴰ, Memᴰ-contains}
use obehy.Prelude.Lists.{All}
use obehy.Prelude.Raises.{◌>>=◌, Gives, bind-Gives}
use obehy.Model.Facts.{Instant, Float}
use obehy.Model.Journey.{Hypothesis}
use obehy.Policy.{ProgressPolicy}
use obehy.Timeline.Timetable.{Trigger, Plan, triggers_between}
use obehy.Timeline.Commit.Outcome.{undecided, unseen, crosses}
use obehy.Timeline.Brackets.{hypothesis_eq, frontier_of, survivors, cut, deciding_of}
use obehy.Timeline.Commit.{Outcome, Crossing, Committed, outcome, commit_each, commit_with, commit}
use obehy.Timeline.Between.{
  Ascending, InPathOrder, Beyond, All-map, lez-beyond, Ascending-from, triggers_between-IsBetween,
}
use obehy.Timeline.Readings.{IsReady, Led, map-keep_if-Memᴰ, deciding_of-Gives}
use obehy.Timeline.Crossings.{Ascends, Agreed, Decides, HasHistory, HasCall, outcome-Gives}

-- The crossing is of a trigger of the plan beyond `from` and up to `to`, as the readings agree.
pub record IsCrossing (plan : Plan) (deciding : List Hypothesis) (from to : Float) (c : Crossing)
    : Type 0 where
  pub trigger : Trigger
  pub is_in : Memᴰ trigger plan.triggers
  pub is_beyond : lez trigger.along_m from ≡ false
  pub is_reached : lez trigger.along_m to ≡ true
  pub is_agreed : Agreed deciding trigger c

-- What the loop of `commit` returns, from the distance `reached` on; either nothing was decided,
-- or it went beyond `from`.
unfoldable IsDone :
    Plan
    → List Hypothesis
    → Float
    → Float
    → Option Instant
    → Float × List Crossing × Option Instant
    → Type 0
IsDone plan deciding from reached crossed_at done =
    (lez reached done.0 ≡ true)
    × Ascends crossed_at done.1 done.2
    × All (IsCrossing plan deciding from done.0) done.1
    × (((done.1 ≡ []) × (done.0 ≡ reached)) ⊎ (lez done.0 from ≡ false))

module _ (plan : Plan) (policy : ProgressPolicy) (h : Hypothesis) (hs : List Hypothesis)
    (seen : HasHistory h.history) (from : Float) where
  commit_each-Gives :
      (ts : List Trigger) (reached : Float) (crossed_at : Option Instant)
      → Ascending reached ts
      → All (Beyond from) ts
      → All (λ t. Memᴰ t plan.triggers) ts
      → All (HasCall plan) ts
      → Gives
          (commit_each plan policy h hs ts reached crossed_at)
          (IsDone plan (h ∷ hs) from reached crossed_at)
  unfolding commit_each IsDone Ascends Ascending Decides
  commit_each-Gives [] reached crossed_at asc beyond known calls =
      (_, refl, (lez_refl reached, refl, tt, inl (refl, refl)))
  commit_each-Gives (t ∷ ts) reached crossed_at asc beyond known calls =
      bind-Gives (outcome plan policy h hs t crossed_at) _
        (outcome-Gives plan policy h hs t crossed_at seen calls.0)
        (go (λ before. commit_each-Gives ts t.along_m before asc.1 beyond.1 known.1 calls.1))
    where
      go :
          ((before : Option Instant)
            → Gives
                (commit_each plan policy h hs ts t.along_m before)
                (IsDone plan (h ∷ hs) from t.along_m before))
          → (o : Outcome) → Decides (h ∷ hs) t crossed_at o
          → Gives
              (elim o [
                | undecided ↦ some (reached, [], crossed_at)
                | unseen ↦ commit_each plan policy h hs ts t.along_m crossed_at
                | crosses c ↦ commit_each plan policy h hs ts t.along_m (some c.at) >>= λ rest.
                    some (rest.0, c ∷ rest.1, rest.2)
              ])
              (IsDone plan (h ∷ hs) from reached crossed_at)
      go rest undecided d = (_, refl, (lez_refl reached, refl, tt, inl (refl, refl)))
      go rest unseen d =
          let (done, e, (far, order, all, moved)) = rest crossed_at in
          (
            done,
            e,
            (
              lez_trans reached t.along_m done.0 asc.0 far,
              order,
              all,
              inr (lez-beyond from t.along_m done.0 beyond.0 far),
            ),
          )
      go rest (crosses c) d =
          let (done, e, (far, order, all, moved)) = rest (some c.at) in
          (
            (done.0, c ∷ done.1, done.2),
            rw e refl,
            (
              lez_trans reached t.along_m done.0 asc.0 far,
              (d.0, order),
              (
                record {
                  trigger = t;
                  is_in = known.0;
                  is_beyond = beyond.0;
                  is_reached = far;
                  is_agreed = d.1;
                },
                all,
              ),
              inr (lez-beyond from t.along_m done.0 beyond.0 far),
            ),
          )

All-both :
    {A : Type 0} {P Q : A → Type 0} (xs : List A)
    → All P xs
    → ((a : A) → Memᴰ a xs → P a → Q a)
    → All Q xs
All-both [] h f = tt
All-both (x ∷ xs) h f = (f x (Memᴰ.head refl) h.0, All-both xs h.1 (λ a m. f a (Memᴰ.tail m)))

-- A commit from the distance `from` and the time `crossed_at` on: it does not move back, the
-- crossings are in order of time, each is of a trigger passed on which the deciding readings
-- agree, and every deciding reading is kept, whole or cut at the commit.
pub record IsCommit (plan : Plan) (deciding : List Hypothesis) (from : Float)
    (crossed_at : Option Instant) (r : Committed) : Type 0 where
  pub moves_on : lez from r.committed_m ≡ true
  pub in_order : Ascends crossed_at r.crossed r.crossed_at
  pub are_crossings : All (IsCrossing plan deciding from r.committed_m) r.crossed
  pub are_kept : All (λ k. Memᴰ k r.beam ⊎ Memᴰ (cut r.committed_m k) r.beam) deciding

module _ (plan : Plan) (policy : ProgressPolicy) (in_order : InPathOrder plan.triggers)
    (calls : All (HasCall plan) plan.triggers) where
  kept-survivors :
      (reached : Float) (deciding beam : List Hypothesis) (k : Hypothesis)
      → Memᴰ k deciding
      → Memᴰ k beam
      → Memᴰ (cut reached k) (survivors reached deciding beam)
  unfolding survivors
  kept-survivors reached deciding beam k decides among =
      map-keep_if-Memᴰ (cut reached) _ k beam (ground (arith, Memᴰ-contains k deciding decides))
        among

  commit_with-Gives :
      (h : Hypothesis) (hs beam : List Hypothesis) (from : Float) (crossed_at : Option Instant)
      → HasHistory h.history
      → All (λ k. Memᴰ k beam) (h ∷ hs)
      → Gives
          (commit_with plan policy h hs beam from crossed_at)
          (IsCommit plan (h ∷ hs) from crossed_at)
  unfolding commit_with IsDone
  commit_with-Gives h hs beam from crossed_at seen among =
      let end = frontier_of h hs in
      let ts = triggers_between plan from end in
      let (ordered, beyond, near, known) = triggers_between-IsBetween plan from end in_order in
      bind-Gives _ _
        (commit_each-Gives plan policy h hs seen from ts from crossed_at
          (Ascending-from from ts ordered beyond) beyond known
          (All-map _ _ ts (λ t m. All-Memᴰ (HasCall plan) plan.triggers calls t m) known))
        (λ done d. elim (Bool-cases (lez done.0 from && lez from done.0)) [
          | inl same ↦ rw same (_, refl, stays done d (ground (arith, same)))
          | inr moved ↦ rw moved (
            _,
            refl,
            (record {
              moves_on = d.0;
              in_order = d.1;
              are_crossings = d.2;
              are_kept =
                  All-both (h ∷ hs) among
                    (λ k own there. inr (kept-survivors done.0 (h ∷ hs) beam k own there));
            }),
          )
        ])
    where
      stays :
          (done : Float × List Crossing × Option Instant)
          → IsDone plan (h ∷ hs) from from crossed_at done
          → lez done.0 from ≡ true
          → IsCommit plan
              (h ∷ hs)
              from
              crossed_at
              (record { beam = beam; committed_m = from; crossed = []; crossed_at = done.2 })
      stays done d behind = elim d.3 [
        | inr beyond ↦ absurd (cc (behind, beyond))
        | inl (empty, _) ↦ record {
          moves_on = lez_refl from;
          in_order = subst (λ cs. Ascends crossed_at cs done.2) empty d.1;
          are_crossings = tt;
          are_kept = All-map _ _ (h ∷ hs) (λ k m. inl m) among;
        }
      ]

  -- `commit` returns when every reading has fixes and some reading is not negligible. It never
  -- moves the commit back; the times of the crossings never decrease, from the last one before
  -- on; each crossing is of a trigger beyond the old commit and up to the new one, which all
  -- deciding readings crossed between the same two fixes, or, for an inferred departure from the
  -- origin, none crossed between fixes; and every deciding reading is kept, whole or cut at the
  -- commit. The plan's triggers are in path order and of calls of its timetable.
  pub commit-IsCommit :
      (beam : List Hypothesis) (from : Float) (crossed_at : Option Instant) (at : Instant)
      → IsReady policy beam
      → Gives (commit plan policy beam from crossed_at at) (λ r.
        Gives (deciding_of beam at policy) (λ deciding. IsCommit plan deciding from crossed_at r))
  unfolding commit IsReady Led
  commit-IsCommit [] from crossed_at at ready = absurd (cc ready.1)
  commit-IsCommit (b ∷ beam) from crossed_at at ready =
      bind-Gives _ _ (decided (deciding_of-Gives policy (b ∷ beam) at ready)) go
    where
      decided :
          Gives
            (deciding_of (b ∷ beam) at policy)
            (λ deciding. Led deciding × All (λ k. Memᴰ k (b ∷ beam)) deciding)
          → Gives (deciding_of (b ∷ beam) at policy) (λ deciding.
            (deciding_of (b ∷ beam) at policy ≡ some deciding)
            × Led deciding
            × All (λ k. Memᴰ k (b ∷ beam)) deciding)
      decided (deciding, e, (led, among)) = (deciding, e, (e, led, among))

      go :
          (deciding : List Hypothesis)
          → (deciding_of (b ∷ beam) at policy ≡ some deciding)
            × Led deciding
            × All (λ k. Memᴰ k (b ∷ beam)) deciding
          → Gives
              (elim deciding [
                | [] ↦ none
                | h ∷ hs ↦ commit_with plan policy h hs (b ∷ beam) from crossed_at
              ])
              (λ r.
                Gives
                  (deciding_of (b ∷ beam) at policy)
                  (λ deciding. IsCommit plan deciding from crossed_at r))
      go [] (e, led, among) = absurd led
      go (h ∷ hs) (e, led, among) =
          let (r, q, is) = commit_with-Gives h hs (b ∷ beam) from crossed_at led among in
          (r, q, (h ∷ hs, e, is))
