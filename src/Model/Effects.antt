-- ===== src/Model/Effects.antt =====
-- What a step asks the worker to do (src/obehy/realtime/model.py).
use obehy.Prelude.{ℕ, String, Bool, Option, List}
use obehy.Model.Facts.{Instant, EventKind, Observation}
use obehy.Model.Journey.{VehicleId, JourneyKey, Reason, Platform, WriteEvent}

pub record ScheduledCall : Type 0 where
  pub ordinal : ℕ
  pub location_id : String
  pub visit_n : ℕ
  pub passenger_service : Bool
  pub scheduled_arrival : Option ℕ
  pub scheduled_departure : Option ℕ
  pub name : String

pub record SnapshotJourney : Type 0 where
  pub journey : JourneyKey
  pub at : Instant
  pub release_id : String
  pub trip_id : String
  pub route_name : String
  pub headsign : Option String
  pub calls : List ScheduledCall
  pub run_key : Option String
  pub route_id : Option String
  pub mode : Option String
  pub agency_id : Option String

pub data JourneyLinkKind : Type 0 where
  continues_as splits_from joins : JourneyLinkKind

pub record LinkJourneys : Type 0 where
  pub source : JourneyKey
  pub target : JourneyKey
  pub kind : JourneyLinkKind

pub record RecordPlatform : Type 0 where
  pub journey : JourneyKey
  pub location_id : String
  pub visit_n : ℕ
  pub kind : EventKind
  pub platform : Platform

pub record AssignVehicle : Type 0 where
  pub vehicle : VehicleId
  pub journey : JourneyKey
  pub at : Instant

pub record RecordCancellation : Type 0 where
  pub journey : JourneyKey
  pub source : String
  pub at : Instant
  pub cancelled : Bool

pub record ObservationResult : Type 0 where
  pub observation : Observation
  pub journey : Option JourneyKey
  pub reason : Option Reason
  pub public : List JourneyKey
  pub state_since : Option Instant

pub data UnresolvedKind : Type 0 where
  point inconsistent platform behind : UnresolvedKind

pub record Unresolved : Type 0 where
  pub observation : Observation
  pub kind : UnresolvedKind
  pub name : String

pub data Effect : Type 0 where
  snapshot_journey : SnapshotJourney → Effect
  write_event : WriteEvent → Effect
  assign_vehicle : AssignVehicle → Effect
  observation_result : ObservationResult → Effect
  link_journeys : LinkJourneys → Effect
  record_platform : RecordPlatform → Effect
  record_cancellation : RecordCancellation → Effect
  unresolved : Unresolved → Effect
