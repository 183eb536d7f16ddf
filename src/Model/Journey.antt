-- ===== src/Model/Journey.antt =====
-- Identities, bindings and the state of one journey instance (src/obehy/realtime/model.py).
use native.Mathlib.Decide.{ℕ_discrete}
use obehy.Prelude.{ℕ, String, Bool, Option, List, [], ◌∷◌, map, Eq, String_discrete}
use obehy.Prelude.Equal.{eq_of_discrete}
use obehy.Prelude.Ints.{ℤ}
use obehy.Model.Facts.{
  Instant, Date, Float, Feed, Interval, Position, DelayReference, EventKind, NextPoint,
  NextStopPrediction, PlatformLabel,
}

pub record VehicleId : Type 0 where
  pub source : String
  pub source_vehicle_id : String

pub record JourneyKey : Type 0 where
  pub feed : Feed
  pub namespace : String
  pub key : String
  pub service_date : Date

unfoldable pub VehicleId-discrete : Discrete VehicleId
VehicleId-discrete = hlevel String_discrete

instance abbrev pub vehicle_id_eq : Eq VehicleId
vehicle_id_eq = eq_of_discrete VehicleId-discrete

unfoldable pub JourneyKey-discrete : Discrete JourneyKey
JourneyKey-discrete = hlevel (String_discrete, ℕ_discrete)

instance abbrev pub journey_key_eq : Eq JourneyKey
journey_key_eq = eq_of_discrete JourneyKey-discrete

-- Why an observation is not, or no longer, bound to a journey.
pub data Reason : Type 0 where
  no_key no_line no_trip not_active not_in_service ambiguous untimed stale_key : Reason

pub data BindingMethod : Type 0 where
  keyed inferred : BindingMethod

pub record Binding : Type 0 where
  pub vehicle : VehicleId
  pub journey : JourneyKey
  pub trip_id : String
  pub method : BindingMethod
  pub bound_at : Instant
  pub confirmed : Bool

pub record Departure : Type 0 where
  pub stop : String
  pub left_at : Instant
  pub scheduled : Option Interval
  pub position : Option Position

pub record KeylessEpisode : Type 0 where
  pub line : String
  pub destination : String
  pub started_at : Instant
  pub last_at : Instant
  pub next_stop : Option String
  pub departures : List Departure

pub data Lifecycle : Type 0 where
  forecast pre_trip running finished cancelled : Lifecycle

pub data CallStatus : Type 0 where
  scheduled predicted actual inferred no_realtime cancelled : CallStatus

pub data SourceClass : Type 0 where
  gps source propagated : SourceClass

pub record Platform : Type 0 where
  pub value : String
  pub label : PlatformLabel
  pub boarding_point_id : Option String
  pub assigned_at : Instant
  pub source : String

pub record CallState : Type 0 where
  pub sequence : ℕ
  pub location_id : String
  pub visit_n : ℕ
  pub arrival : Option Interval
  pub departure : Option Interval
  pub estimated_arrival : Option Instant
  pub estimated_departure : Option Instant
  pub status : CallStatus
  pub source_class : Option SourceClass
  pub passed_arrival : Option Instant
  pub passed_departure : Option Instant
  pub passenger : Bool
  pub platform : Option Platform

-- A call with new estimates.
abbrev pub estimated :
    CallState → Option Instant → Option Instant → CallStatus → Option SourceClass → CallState
estimated c arrival departure status source_class = record c {
  estimated_arrival = arrival;
  estimated_departure = departure;
  status = status;
  source_class = source_class;
}

pub record Progress : Type 0 where
  pub distance_m : Float
  pub call_index : ℤ
  pub at : Instant

pub record Placement : Type 0 where
  pub along_m : Float
  pub at : Instant

pub record Hypothesis : Type 0 where
  pub along_m : Float
  pub at : Instant
  pub lateness_s : Float
  pub log_p : Float
  pub history : List Placement
  pub off_path_since : Option Instant
  pub reckoned_m : Float

pub record OffPath : Type 0 where
  pub along_m : Float
  pub at : Instant
  pub lateness_s : Float

pub record Track : Type 0 where
  pub hypotheses : List Hypothesis
  pub committed_m : Float
  pub unmatched_since : Option Instant
  pub seen_at : Option Instant
  pub crossed_at : Option Instant
  pub off_path : Option OffPath
  pub fix : Option (String × Float × Float)

pub record Freshness : Type 0 where
  pub updated_at : Instant
  pub heard_at : Instant
  pub stale : Bool
  pub lost : Bool

pub record Lead : Type 0 where
  pub vehicle : VehicleId
  pub seen : Instant

pub record JourneySpan : Type 0 where
  pub journey : JourneyKey
  pub first : ℕ
  pub last : ℕ

pub record PartSpan : Type 0 where
  pub trip_id : String
  pub first : ℕ
  pub last : ℕ

pub record SourceTrack : Type 0 where
  pub source : String
  pub heard_at : Instant
  pub fingerprint : Option ℕ
  pub next_point : Option NextPoint
  pub delay_s : Option ℤ
  pub delay_at : Option Instant
  pub delay_reference : Option DelayReference
  pub prediction : Option NextStopPrediction
  pub point : Option ℕ
  pub position_at : Option Instant
  pub lead : Option Lead

pub record Published : Type 0 where
  pub lon : Float
  pub lat : Float
  pub bearing : Option Float
  pub at : Instant
  pub along_m : Option Float
  pub snapped : Bool

pub data EventMethod : Type 0 where
  source progress inferred : EventMethod

pub record WriteEvent : Type 0 where
  pub journey : JourneyKey
  pub location_id : String
  pub visit_n : ℕ
  pub kind : EventKind
  pub interval : Interval
  pub method : EventMethod
  pub source : String

pub record Instance : Type 0 where
  pub journey : JourneyKey
  pub release_id : String
  pub trip_id : String
  pub mode : String
  pub lifecycle : Lifecycle
  pub calls : List CallState
  pub freshness : Freshness
  pub progress : Option Progress
  pub track : Option Track
  pub delay_s : Option ℤ
  pub off_route_since : Option Instant
  pub off_route : Bool
  pub lead : Option Lead
  pub journeys : List JourneySpan
  pub parts : List PartSpan
  pub sources : List SourceTrack
  pub track_source : Option String
  pub shown_source : Option String
  pub published : Option Published
  pub held : List WriteEvent

-- The public journeys of an instance: those of its spans, else its own.
unfoldable pub public : Instance → List JourneyKey
public i = elim i.journeys [
  | [] ↦ i.journey ∷ []
  | s ∷ ss ↦ s.journey ∷ map (λ (t : JourneySpan). t.journey) ss
]
