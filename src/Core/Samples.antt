-- ===== src/Core/Samples.antt =====
-- A small world: one line with one trip of two calls, its release, and observations of a bus.
use obehy.Prelude.{
  is_some, ◌≡◌, Option, ℕ, ◌+◌, ◌*◌, ◌/◌, ◌%◌, String, true, false, none, some, List, [], ◌∷◌, ◌==◌,
  ◌&&◌, string_eq, nat_eq, if◌then◌else◌, refl,
}
use obehy.Model.Facts.{
  Instant, Feed, TripKey, Position, Fact, vehicle_key, trip_key, position, trip_cancelled,
  Observation, minutes, seconds,
}
use obehy.Prelude.Ints.{pos}
use obehy.Model.Journey.{VehicleId, JourneyKey, CallState, CallStatus}
use obehy.Model.State.{FeedState}
use obehy.Index.{KeyEntry, Call, Trip, IndexView}
use obehy.Policy.{ByMode, Policy}
use obehy.Times.{Zone}
use obehy.Keyed.{Match, refused}
use obehy.Core.Context.{Context, Engine, EngineLaws}
use obehy.Model.Journey.{Reason, Binding, BindingMethod, Instance, Lifecycle}

-- UTC.
abbrev pub utc : Zone
utc = record {
  wall = λ day s. day * 86400000000 + s * 1000000;
  isoformat = λ t. "";
  read = λ t. (t / 86400000000, t % 86400000000);
}

abbrev pub sample_call : ℕ → String → ℕ → Call
sample_call n location time = record {
  sequence = n;
  location_id = location;
  visit_n = 1;
  passenger_service = true;
  arrival = some time;
  departure = some time;
  on_request = false;
  point_id = none;
}

-- From 08:00 to 08:30.
abbrev pub sample_trip : Trip
sample_trip = record {
  trip_id = "trip 1";
  route_id = "route";
  route_name = "100";
  mode = "bus";
  service_id = "daily";
  headsign = none;
  shape_id = none;
  calls = sample_call 1 "A" 28800 ∷ sample_call 2 "B" 30600 ∷ [];
  run_key = none;
  run_part = none;
  train_number = none;
  parts = [];
  agency_id = none;
}

abbrev sample_keys : String → String → List KeyEntry
sample_keys namespace key =
    if namespace == "cis:line_trip" && key == "100:1"
    then record { public_id = "trip 1"; valid_from = 0; valid_to = 1000 } ∷ []
    else []

abbrev pub sample_index : IndexView
sample_index = record {
  release_id = "release 1";
  feed = Feed.jdf;
  keys = sample_keys;
  trip = λ id. sample_trip;
  runs_on = λ service day. day == 100;
  location_name = λ id. id;
  run = λ trip day. trip;
  location_key = λ namespace key. some key;
  line_keys = λ namespace line. [];
}

-- A release without the line.
abbrev pub empty_index : IndexView
empty_index = record sample_index { release_id = "release 2"; keys = λ namespace key. [] }

abbrev in_every_mode : ℕ → ByMode
in_every_mode n = record { default = n; overrides = [] }

abbrev pub sample_policy : Policy
sample_policy = record {
  time = record {
    pre_trip_s = in_every_mode (minutes 60);
    max_delay_s = in_every_mode (minutes 120);
  };
  lifecycle = record {
    stale_after_s = in_every_mode (minutes 10);
    predict_without_data_s = in_every_mode (minutes 30);
    forget_after_s = minutes 120;
  };
  rail = record {
    position_preference = [];
    position_fresh_s = minutes 2;
    event_tolerance_s = seconds 30;
  };
  keyless = record { episode_gap_s = minutes 20; confirm_departures = 2 };
}

-- An engine that moves nothing.
abbrev pub still : Engine
still = record {
  advance = λ i trip o s. some (i, []);
  at_origin_or_moving = λ journey trip previous p t. false;
  past_first_stop = λ journey trip p. false;
  terminus = λ i trip. none;
  estimate = λ i trip now. i;
  episode = λ previous o s. none;
  infer = λ line episode o. some (refused Reason.no_line);
  placed = λ b episode. none;
}

pub still_laws : EngineLaws still
still_laws = record {
  keeps_journey = λ i j trip o s es e. cc;
  estimate_keeps_journey = λ i trip now. refl;
}

abbrev pub sample_context : Context
sample_context = record {
  zone = utc;
  index = sample_index;
  policy = sample_policy;
  semantics = [];
  engine = still;
}

abbrev pub sample_fact : Instant → List Fact → Observation
sample_fact t facts = record {
  source = "dpp";
  channel = "positions";
  feed = Feed.jdf;
  received_at = t;
  observed_at = some t;
  raw = record { sha256 = "00"; item = 0 };
  decoder_version = 1;
  facts = facts;
}

-- 08:10 on day 100.
abbrev pub ten_past : Instant
ten_past = 100 * 86400000000 + 29400 * 1000000

abbrev pub sample_key : TripKey
sample_key = record { namespace = "cis:line_trip"; key = "100:1" }

abbrev pub bus : VehicleId
bus = record { source = "dpp"; source_vehicle_id = "bus 7" }

abbrev pub sample_place : Position
sample_place = record { lat = pos 50; lon = pos 14; bearing = none }

abbrev pub sighting : Instant → Observation
sighting t = sample_fact t (vehicle_key "bus 7" ∷ trip_key sample_key ∷ position sample_place ∷ [])

abbrev pub cancelling : Observation
cancelling = sample_fact ten_past (trip_key sample_key ∷ trip_cancelled ∷ [])

abbrev pub sample_journey : JourneyKey
sample_journey = record {
  feed = Feed.jdf;
  namespace = "cis:line_trip";
  key = "100:1";
  service_date = 100;
}

abbrev pub fresh : FeedState
fresh = record { feed = Feed.jdf; vehicles = []; instances = []; dirty = [] }

abbrev pub tram : VehicleId
tram = record { source = "dpp"; source_vehicle_id = "tram 1" }

-- The journey's instance, running, led by another vehicle of the source.
abbrev pub led_instance : Instance
led_instance = record {
  journey = sample_journey;
  release_id = "release 1";
  trip_id = "trip 1";
  mode = "bus";
  lifecycle = Lifecycle.running;
  calls = [];
  freshness = record { updated_at = ten_past; heard_at = ten_past; stale = false; lost = false };
  progress = none;
  track = none;
  delay_s = none;
  off_route_since = none;
  off_route = false;
  lead = some (record { vehicle = tram; seen = ten_past });
  journeys = [];
  parts = [];
  sources = [];
  track_source = none;
  shown_source = none;
  published = none;
  held = [];
}

abbrev pub led_state : FeedState
led_state = record fresh { instances = (sample_journey, led_instance) ∷ [] }

abbrev pub sample_binding : Binding
sample_binding = record {
  vehicle = bus;
  journey = sample_journey;
  trip_id = "trip 1";
  method = BindingMethod.keyed;
  bound_at = ten_past;
  confirmed = true;
}

abbrev pub sample_match : Match
sample_match = record {
  journey = sample_journey;
  trip = sample_trip;
  start_at = 100 * 86400000000 + 28800 * 1000000;
  end_at = 100 * 86400000000 + 30600 * 1000000;
}

abbrev pub sample_call_state : CallState
sample_call_state = record {
  sequence = 1;
  location_id = "A";
  visit_n = 1;
  arrival = none;
  departure = none;
  estimated_arrival = none;
  estimated_departure = none;
  status = CallStatus.scheduled;
  source_class = none;
  passed_arrival = none;
  passed_departure = none;
  passenger = true;
  platform = none;
}

-- The value of code that did not raise.
abbrev pub the : {A : Type 0} (m : Option A) → is_some m ≡ true → A
the (some a) e = a
the none e = absurd (cc)

pub the-eq : {A : Type 0} (m : Option A) (e : is_some m ≡ true) → m ≡ some (the m e)
the-eq (some a) e = refl
the-eq none e = absurd (cc)
