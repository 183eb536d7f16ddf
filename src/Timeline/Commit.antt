-- ===== src/Timeline/Commit.antt =====
-- Committing crossings of trigger points (src/obehy/realtime/timeline/commit.py).
use obehy.Prelude.{
  ℕ, ◌+◌, ◌-◌, Bool, true, false, ◌&&◌, Option, none, some, List, [], ◌∷◌, ◌==◌, nat_eq, ltb, leb,
  if◌then◌else◌,
}
use obehy.Prelude.Ints.{lez, rounded}
use obehy.Prelude.Lists.{any}
use obehy.Prelude.Raises.{Raises, ◌>>=◌}
use obehy.Model.Facts.{Instant, Float, Interval, EventKind}
use obehy.Model.Journey.{Placement, Hypothesis}
use obehy.Policy.{ProgressPolicy}
use obehy.Timeline.Timetable.{Trigger, Plan, triggers_between}
use obehy.Timeline.Brackets.{
  Bracket, times_eq, hypothesis_eq, bracket_of, seen_before, deciding_of, frontier_of, disagree,
  survivors,
}
use obehy.Timeline.Placing.{crossing_time, inferred_at, before_first}

pub data Method : Type 0 where
  progress inferred : Method

pub record Crossing : Type 0 where
  pub call : ℕ
  pub kind : EventKind
  pub fixes : Interval
  pub at : Instant
  pub method : Option Method
  pub interval : Option Interval

pub record Committed : Type 0 where
  pub beam : List Hypothesis
  pub committed_m : Float
  pub crossed : List Crossing
  pub crossed_at : Option Instant

unfoldable pub no_sooner : Option Instant → Instant → Instant
no_sooner none at = at
no_sooner (some crossed_at) at = if ltb at crossed_at then crossed_at else at

unfoldable pub is_origin : Trigger → Bool
is_origin trigger =
    trigger.call == 0 && (elim trigger.kind [ EventKind.departure ↦ true | _ ↦ false ])

-- A trigger that is still undecided; one crossed before anything was observed; a crossing.
pub data Outcome : Type 0 where
  undecided unseen : Outcome
  crosses : Crossing → Outcome

-- The origin's departure, in the middle of what was inferred.
unfoldable pub left_origin : Placement → Trigger → Option Instant → Option Interval → Outcome
unfolding no_sooner
left_origin first trigger crossed_at none = unseen
left_origin first trigger crossed_at (some interval) = crosses (record {
  call = trigger.call;
  kind = trigger.kind;
  fixes = record { lo = first.at; hi = first.at };
  at = no_sooner crossed_at (interval.lo + rounded (interval.hi - interval.lo) 2);
  method = some inferred;
  interval = some interval;
})

module _ (plan : Plan) (policy : ProgressPolicy) where
  -- A crossing before the first fix: the origin's departure, if it can be inferred.
  unfoldable pub unobserved : Hypothesis → Trigger → Option Instant → Raises Outcome
  unfolding before_first is_origin left_origin
  unobserved h trigger crossed_at = elim h.history [
    | [] ↦ none
    | first ∷ _ ↦
        if is_origin trigger
        then (before_first plan policy first trigger >>= λ found.
            some (left_origin first trigger crossed_at found))
        else some unseen
  ]

  -- How a crossing between two fixes is recorded.
  unfoldable pub recorded : Bracket → Trigger → Instant → Raises (Option Method × Option Interval)
  unfolding inferred_at
  recorded (before, after) trigger when =
      if leb after.at (before.at + policy.max_event_interval_s)
      then some (some progress, some (record { lo = before.at; hi = after.at }))
      else inferred_at plan policy (before, after) trigger when >>= λ found.
          some (elim found [ none ↦ (none, none) | some interval ↦ (some inferred, some interval) ])

  unfoldable pub observed : Bracket → Trigger → Option Instant → Raises Outcome
  unfolding crossing_time recorded no_sooner
  observed (before, after) trigger crossed_at =
      crossing_time plan policy (before, after) trigger >>= λ crossing_at.
      let when = no_sooner crossed_at crossing_at in
      recorded (before, after) trigger when >>= λ how. some (
        crosses (record {
          call = trigger.call;
          kind = trigger.kind;
          fixes = record { lo = before.at; hi = after.at };
          at = when;
          method = how.0;
          interval = how.1;
        }))

  -- What is decided when the deciding readings `h, …` have the bracket of `h` in common.
  unfoldable pub judged :
      Hypothesis → List Hypothesis → Trigger → Option Instant → Option Bracket → Raises Outcome
  unfolding seen_before unobserved observed
  judged h hs trigger crossed_at none =
      if any (λ k. seen_before k.history trigger.along_m) (h ∷ hs)
      then some undecided
      else unobserved h trigger crossed_at
  judged h hs trigger crossed_at (some bracket) = observed bracket trigger crossed_at

  -- The body of the loop of `commit`.
  unfoldable pub outcome : Hypothesis → List Hypothesis → Trigger → Option Instant → Raises Outcome
  unfolding disagree bracket_of judged
  outcome h hs trigger crossed_at =
      if disagree trigger h hs
      then some undecided
      else judged h hs trigger crossed_at (bracket_of h.history trigger.along_m)

  -- The loop of `commit`: how far it reaches, the crossings, and the time of the last.
  unfoldable pub commit_each :
      Hypothesis
      → List Hypothesis
      → List Trigger
      → Float
      → Option Instant
      → Raises (Float × List Crossing × Option Instant)
  unfolding outcome
  commit_each h hs [] reached crossed_at = some (reached, [], crossed_at)
  commit_each h hs (t ∷ ts) reached crossed_at = outcome h hs t crossed_at >>= λ o. elim o [
    | undecided ↦ some (reached, [], crossed_at)
    | unseen ↦ commit_each h hs ts t.along_m crossed_at
    | crosses c ↦
        commit_each h hs ts t.along_m (some c.at) >>= λ rest. some (rest.0, c ∷ rest.1, rest.2)
  ]

  unfoldable pub commit_with :
      Hypothesis → List Hypothesis → List Hypothesis → Float → Option Instant → Raises Committed
  unfolding commit_each frontier_of survivors
  commit_with h hs beam committed_m crossed_at =
      commit_each h hs (triggers_between plan committed_m (frontier_of h hs)) committed_m crossed_at
      >>= λ done. some (
          if lez done.0 committed_m && lez committed_m done.0
          then record { beam = beam; committed_m = committed_m; crossed = []; crossed_at = done.2 }
          else record {
            beam = survivors done.0 (h ∷ hs) beam;
            committed_m = done.0;
            crossed = done.1;
            crossed_at = done.2;
          })

  -- `commit`
  unfoldable pub commit : List Hypothesis → Float → Option Instant → Instant → Raises Committed
  unfolding commit_with deciding_of
  commit [] committed_m crossed_at at =
      some (record { beam = []; committed_m = committed_m; crossed = []; crossed_at = crossed_at })
  commit (b ∷ beam) committed_m crossed_at at = deciding_of (b ∷ beam) at policy >>= λ deciding.
      elim deciding [ [] ↦ none | h ∷ hs ↦ commit_with h hs (b ∷ beam) committed_m crossed_at ]
