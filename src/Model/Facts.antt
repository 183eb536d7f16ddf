-- ===== src/Model/Facts.antt =====
-- Observations and the facts that sources state (src/obehy/realtime/facts.py).
use native.Mathlib.Decide.{ℕ_discrete}
use obehy.Prelude.{
  ℕ, ◌*◌, String, Bool, Option, none, some, List, [], ◌∷◌, Eq, or_else, String_discrete,
}
use obehy.Prelude.Equal.{eq_of_discrete}
use obehy.Prelude.Ints.{ℤ, ℤ-discrete}

abbrev pub Instant : Type 0
Instant = ℕ

abbrev pub Date : Type 0
Date = ℕ

abbrev pub Float : Type 0
Float = ℤ

-- `timedelta(seconds=n)`, `timedelta(minutes=n)`, `timedelta(hours=n)`
abbrev pub seconds : ℕ → ℕ
seconds n = n * 1000000

abbrev pub minutes : ℕ → ℕ
minutes n = n * 60000000

pub data Feed : Type 0 where
  jdf czptt : Feed

pub record Interval : Type 0 where
  pub lo : Instant
  pub hi : Instant

pub record TripKey : Type 0 where
  pub namespace : String
  pub key : String

pub record LineRef : Type 0 where
  pub namespace : String
  pub value : String

pub record Position : Type 0 where
  pub lat : Float
  pub lon : Float
  pub bearing : Option Float

pub data DelayReference : Type 0 where
  arrival departure unknown point : DelayReference

pub record Delay : Type 0 where
  pub seconds : ℤ
  pub reference : DelayReference

pub data EventKind : Type 0 where
  arrival departure passage : EventKind

pub record StopEvent : Type 0 where
  pub call_ref : String
  pub kind : EventKind
  pub at : Instant

pub record PointEvent : Type 0 where
  pub name : String
  pub codes : List String
  pub scheduled : Option Instant
  pub actual : Interval
  pub standing : Bool

pub record NextPoint : Type 0 where
  pub name : String
  pub sr70 : Option String

pub record NextStopPrediction : Type 0 where
  pub sr70 : String
  pub scheduled : Option Instant
  pub predicted : Option Instant

pub record VehicleAttribute : Type 0 where
  pub attribute : String
  pub value : String

pub record TripStatus : Type 0 where
  pub replacement_bus : Bool
  pub diverted : Bool

pub data PlatformLabel : Type 0 where
  platform track : PlatformLabel

pub record PlatformAssignment : Type 0 where
  pub station : String
  pub kind : EventKind
  pub scheduled : Instant
  pub value : String
  pub label : PlatformLabel

pub data Fact : Type 0 where
  vehicle_key : String → Fact
  trip_key : TripKey → Fact
  line_ref : LineRef → Fact
  destination : String → Fact
  next_stop_name : String → Fact
  position : Position → Fact
  delay : Delay → Fact
  source_state : String → Fact
  source_departure : Instant → Fact
  stop_event : StopEvent → Fact
  next_stop : String → Fact
  service_day : Date → Fact
  point_event : PointEvent → Fact
  next_point : NextPoint → Fact
  next_stop_prediction : NextStopPrediction → Fact
  trip_status : TripStatus → Fact
  trip_cancelled : Fact
  platform_assignment : PlatformAssignment → Fact
  vehicle_attribute : VehicleAttribute → Fact

unfoldable pub Fact-discrete : Discrete Fact
Fact-discrete = hlevel (ℕ_discrete, String_discrete, ℤ-discrete)

unfoldable pub Facts-discrete : Discrete (List Fact)
Facts-discrete = hlevel (Fact-discrete)

instance abbrev pub facts_eq : Eq (List Fact)
facts_eq = eq_of_discrete Facts-discrete

unfoldable pub TripKey-discrete : Discrete TripKey
TripKey-discrete = hlevel (String_discrete)

instance abbrev pub trip_key_eq : Eq TripKey
trip_key_eq = eq_of_discrete TripKey-discrete

pub record RawRef : Type 0 where
  pub sha256 : String
  pub item : ℕ

-- How the core reads one channel's facts where sources differ.
pub record SourceSemantics : Type 0 where
  pub pre_trip_delay_is_elapsed : Bool
  pub pre_trip_after_end_is_stale : Bool
  pub unchanged_entry_is_no_news : Bool
  pub delay_floor_minute : Bool

pub record Observation : Type 0 where
  pub source : String
  pub channel : String
  pub feed : Feed
  pub received_at : Instant
  pub observed_at : Option Instant
  pub raw : RawRef
  pub decoder_version : ℕ
  pub facts : List Fact

-- `Observation.at`: the source time, else reception.
abbrev pub at : Observation → Instant
at o = or_else o.observed_at o.received_at

-- The first fact that `select` knows: `Observation.first` at the type that `select` reads.
unfoldable pub first_in {ℓ} : {T : Type ℓ} → (Fact → Option T) → List Fact → Option T
first_in select [] = none
first_in select (f ∷ fs) = elim (select f) [ none ↦ first_in select fs | some t ↦ some t ]

-- `Observation.all`
unfoldable pub all_in {ℓ} : {T : Type ℓ} → (Fact → Option T) → List Fact → List T
all_in select [] = []
all_in select (f ∷ fs) = elim (select f) [ none ↦ all_in select fs | some t ↦ t ∷ all_in select fs ]

abbrev pub as_vehicle_key : Fact → Option String
as_vehicle_key (vehicle_key v) = some v
as_vehicle_key _ = none

abbrev pub as_trip_key : Fact → Option TripKey
as_trip_key (trip_key k) = some k
as_trip_key _ = none

abbrev pub as_line_ref : Fact → Option LineRef
as_line_ref (line_ref l) = some l
as_line_ref _ = none

abbrev pub as_destination : Fact → Option String
as_destination (destination d) = some d
as_destination _ = none

abbrev pub as_next_stop_name : Fact → Option String
as_next_stop_name (next_stop_name n) = some n
as_next_stop_name _ = none

abbrev pub as_position : Fact → Option Position
as_position (position p) = some p
as_position _ = none

abbrev pub as_delay : Fact → Option Delay
as_delay (delay d) = some d
as_delay _ = none

abbrev pub as_source_state : Fact → Option String
as_source_state (source_state c) = some c
as_source_state _ = none

abbrev pub as_source_departure : Fact → Option Instant
as_source_departure (source_departure t) = some t
as_source_departure _ = none

abbrev pub as_service_day : Fact → Option Date
as_service_day (service_day d) = some d
as_service_day _ = none

abbrev pub as_trip_cancelled : Fact → Option (Unit {0})
as_trip_cancelled trip_cancelled = some tt
as_trip_cancelled _ = none

abbrev pub as_platform_assignment : Fact → Option PlatformAssignment
as_platform_assignment (platform_assignment p) = some p
as_platform_assignment _ = none

-- `observation.first(T)`, `observation.all(T)`
abbrev pub first {ℓ} : {T : Type ℓ} → (Fact → Option T) → Observation → Option T
first select o = first_in select o.facts

abbrev pub all {ℓ} : {T : Type ℓ} → (Fact → Option T) → Observation → List T
all select o = all_in select o.facts
