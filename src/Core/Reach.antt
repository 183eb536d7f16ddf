-- ===== src/Core/Reach.antt =====
-- The worker's turns on the state of a feed, as a step relation: an observation, the upkeep and
-- the estimates of a tick, and the move onto a new release, from the empty state.
use obehy.Prelude.{◌≡◌, some, List, []}
use obehy.Model.Facts.{Instant, Feed, Observation}
use obehy.Prelude.Dict.{lookup}
use obehy.Model.Journey.{VehicleId, vehicle_id_eq, JourneyKey, journey_key_eq, Instance}
use obehy.Model.State.{VehicleState, FeedState}
use obehy.Model.Effects.{Effect}
use obehy.Index.{IndexView}
use obehy.Core.Context.{Context, EngineLaws}
use obehy.Core.Observe.{step}
use obehy.Core.Upkeep.{refresh, estimate_all}
use obehy.Core.Rebase.{rebase}
use obehy.Core.Sound.{IsSound, step-IsSound}
use obehy.Core.Keeps.{refresh-IsSound, estimate_all-IsSound}
use obehy.Core.Release.{rebase-IsSound}

abbrev pub empty_state : Feed → FeedState
empty_state feed = record { feed = feed; vehicles = []; instances = []; dirty = [] }

-- The context on another release.
abbrev pub on_release : Context → IndexView → Context
on_release ctx index = record ctx { index = index }

pub data Reached (ctx : Context) (feed : Feed) : IndexView → FeedState → Type 0 where
  started : (index : IndexView) → Reached ctx feed index (empty_state feed)
  observed :
      (index : IndexView) (s t : FeedState) (o : Observation) (es : List Effect)
      → Reached ctx feed index s
      → step (on_release ctx index) s o ≡ some (t, es)
      → Reached ctx feed index t
  refreshed :
      (index : IndexView) (s : FeedState) (now : Instant)
      → Reached ctx feed index s
      → Reached ctx feed index (refresh (on_release ctx index) now s).0
  estimated :
      (index : IndexView) (s : FeedState) (now : Instant)
      → Reached ctx feed index s
      → Reached ctx feed index (estimate_all (on_release ctx index) now s)
  released :
      (index new : IndexView) (s t : FeedState) (es : List Effect)
      → Reached ctx feed index s
      → rebase new s ≡ some (t, es)
      → Reached ctx feed new t

module _ (ctx : Context) (feed : Feed) (laws : EngineLaws ctx.engine) where
  nothing : (j : JourneyKey) (i : Instance) → lookup j [] ≡ some i → ⊥
  unfolding lookup
  nothing j i l = cc

  nobody : (w : VehicleId) (c : VehicleState) → lookup w [] ≡ some c → ⊥
  unfolding lookup
  nobody w c l = cc

  pub empty-IsSound : IsSound (empty_state feed)
  empty-IsSound = record {
    named = record { at_key = λ j i l. absurd (nothing j i l) };
    live = λ w c b l e. absurd (nobody w c l);
    fixed = λ w c l. absurd (nobody w c l);
    explained = λ w c l. absurd (nobody w c l);
    own = λ w c l. absurd (nobody w c l);
  }

  -- Every state that the worker's turns reach from the empty state, in any order and over any
  -- releases, is sound.
  pub Reached-IsSound : (index : IndexView) (s : FeedState) → Reached ctx feed index s → IsSound s
  Reached-IsSound index _ (started _) = empty-IsSound
  Reached-IsSound index t (observed _ s _ o es r e) =
      step-IsSound (on_release ctx index) s t o es laws (Reached-IsSound index s r) e
  Reached-IsSound index _ (refreshed _ s now r) =
      refresh-IsSound (on_release ctx index) now s (Reached-IsSound index s r)
  Reached-IsSound index _ (estimated _ s now r) =
      estimate_all-IsSound (on_release ctx index) now s laws (Reached-IsSound index s r)
  Reached-IsSound new t (released index _ s _ es r e) =
      (rebase-IsSound new s t es (Reached-IsSound index s r) e).0
