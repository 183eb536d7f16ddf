-- ===== src/Core/Observe.antt =====
-- `step` of core.py.
use obehy.Prelude.{Bool, true, false, none, some, List, [], ◌∷◌, ◌==◌, is_some, not, if◌then◌else◌}
use obehy.Prelude.Raises.{Raises}
use obehy.Model.Facts.{Observation, first, as_platform_assignment, as_trip_cancelled}
use obehy.Model.Journey.{Reason}
use obehy.Model.State.{FeedState}
use obehy.Model.Effects.{Effect}
use obehy.Platforms.{apply_platform}
use obehy.Core.Context.{Context, vehicle_of}
use obehy.Core.Binding.{bind}
use obehy.Core.Journey.{open_journey}
use obehy.Core.Step.{feed_eq, result, step_vehicle}
use obehy.Core.Cancel.{cancel}

module _ (ctx : Context) where
  -- A cancellation, or nothing to bind.
  unfoldable pub step_rest : Bool → FeedState → Observation → Raises (FeedState × List Effect)
  step_rest true state o = cancel ctx state o
  step_rest false state o = some (state, result o none (some Reason.no_key) [] none ∷ [])

  -- Without a vehicle: a station board row, a cancellation, or nothing to bind.
  unfoldable pub step_bare : FeedState → Observation → Raises (FeedState × List Effect)
  unfolding step_rest
  step_bare state o = elim (first as_platform_assignment o) [
    | some fact ↦
        apply_platform ctx.zone ctx.index (λ p. bind ctx p fact.scheduled)
          (λ s m. open_journey ctx s m o) state o fact
    | none ↦ step_rest (is_some (first as_trip_cancelled o)) state o
  ]

  -- `step`: an observation of another feed is a ValueError.
  unfoldable pub step : FeedState → Observation → Raises (FeedState × List Effect)
  step state o = if not (o.feed == state.feed) then none else elim (vehicle_of o) [
    | none ↦ step_bare state o
    | some vehicle ↦ step_vehicle ctx state o vehicle
  ]
