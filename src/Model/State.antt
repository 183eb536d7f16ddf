-- ===== src/Model/State.antt =====
-- The state of one feed (src/obehy/realtime/model.py): vehicles, journey instances and the
-- journeys whose estimates are out of date. The learned running times (`hops`) are left out.
use obehy.Prelude.{Option, List, ◌∷◌, if◌then◌else◌}
use obehy.Prelude.Dict.{Dict}
use obehy.Prelude.Lists.{contains, keep_if}
use obehy.Prelude.{not, ◌==◌}
use obehy.Model.Facts.{Instant, Feed, Fact, Position, TripKey}
use obehy.Model.Journey.{
  VehicleId, JourneyKey, journey_key_eq, Reason, Binding, KeylessEpisode, Instance,
}

pub data VehicleStatus : Type 0 where
  running positioning layover unmatched not_in_service : VehicleStatus

pub record VehicleState : Type 0 where
  pub vehicle : VehicleId
  pub feed : Feed
  pub status : VehicleStatus
  pub last_seen : Instant
  pub trip_key : Option TripKey
  pub binding : Option Binding
  pub position : Option Position
  pub position_at : Option Instant
  pub reason : Option Reason
  pub episode : Option KeylessEpisode
  pub facts : List Fact
  pub since : Option Instant

pub record FeedState : Type 0 where
  pub feed : Feed
  pub vehicles : Dict VehicleId VehicleState
  pub instances : Dict JourneyKey Instance
  pub dirty : List JourneyKey

-- `state.dirty.add(journey)`, `state.dirty.discard(journey)`
abbrev pub add_dirty : JourneyKey → List JourneyKey → List JourneyKey
add_dirty j dirty = if contains j dirty then dirty else j ∷ dirty

abbrev pub discard : JourneyKey → List JourneyKey → List JourneyKey
discard j dirty = keep_if (λ k. not (k == j)) dirty
