-- ===== src/Core/Cancel.antt =====
-- A source cancels a trip: `_cancel` of core.py.
use obehy.Prelude.{Bool, true, false, ◌&&◌, none, some, List, [], ◌∷◌, ◌++◌, map, if◌then◌else◌}
use obehy.Prelude.Raises.{Raises, ◌>>=◌}
use obehy.Prelude.Dict.{lookup, insert}
use obehy.Model.Facts.{Observation, at}
use obehy.Model.Journey.{
  JourneyKey, journey_key_eq, Lifecycle, CallStatus, estimated, Instance, public,
}
use obehy.Model.State.{FeedState, add_dirty}
use obehy.Model.Effects.{Effect}
use obehy.Keyed.{Match, Outcome, found, refused}
use obehy.Core.Context.{Context}
use obehy.Core.Binding.{bind}
use obehy.Core.Journey.{open_journey}
use obehy.Core.Follow.{cancellations}
use obehy.Core.Step.{result}

module _ (ctx : Context) where
  -- `_cancel`: a source cancels the trip that its keys name, unless it is seen running.
  unfoldable pub waits_to_run : Lifecycle → Bool
  waits_to_run Lifecycle.forecast = true
  waits_to_run Lifecycle.pre_trip = true
  waits_to_run Lifecycle.cancelled = true
  waits_to_run _ = false

  unfoldable pub single : List JourneyKey → Bool
  single (j ∷ []) = true
  single _ = false

  unfoldable pub cancelled_instance : Instance → Observation → Instance
  cancelled_instance i o = record i {
    lifecycle = Lifecycle.cancelled;
    calls = map (λ c. estimated c none none CallStatus.cancelled none) i.calls;
    freshness = record i.freshness { updated_at = at o; heard_at = o.received_at };
  }

  unfoldable pub cancel_match : FeedState → Observation → Match → Raises (FeedState × List Effect)
  unfolding waits_to_run single cancelled_instance
  cancel_match state o m = do
    opened ← open_journey ctx state m o
    i ← lookup m.journey opened.0.instances
    let since = some o.received_at
    let cancels = waits_to_run i.lifecycle && single (public i)
    let i' = cancelled_instance i o
    some (
        if cancels
        then (
          record opened.0 {
            instances = insert m.journey i' opened.0.instances;
            dirty = add_dirty m.journey opened.0.dirty;
          },
          opened.1
              ++ cancellations true o (public i')
              ++ result o (some m.journey) none (public i') since ∷ [],
        )
        else (opened.0, opened.1 ++ result o (some m.journey) none (public i) since ∷ []))

  unfoldable pub cancel_outcome :
      FeedState → Observation → Outcome → Raises (FeedState × List Effect)
  unfolding cancel_match
  cancel_outcome state o (refused r) = some (state, result o none (some r) [] none ∷ [])
  cancel_outcome state o (found m) = cancel_match state o m

  unfoldable pub cancel : FeedState → Observation → Raises (FeedState × List Effect)
  unfolding cancel_outcome
  cancel state o = do outcome ← bind ctx o (at o); cancel_outcome state o outcome
