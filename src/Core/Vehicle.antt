-- ===== src/Core/Vehicle.antt =====
-- The recorded state of a vehicle: `_fix`, `_since` and `_set_vehicle` of core.py.
use obehy.Prelude.{Bool, false, ◌&&◌, Option, none, some, ◌==◌, Eq, leb, nat_eq, if◌then◌else◌}
use obehy.Prelude.Equal.{eq_of_discrete}
use obehy.Prelude.Ints.{ℤ, ℤ-discrete}
use obehy.Prelude.Dict.{lookup, insert}
use obehy.Model.Facts.{Instant, Position, TripKey, Observation, at, first, as_position}
use obehy.Model.Journey.{VehicleId, vehicle_id_eq, journey_key_eq, Reason, Binding, KeylessEpisode}
use obehy.Model.State.{VehicleStatus, VehicleState, FeedState}

instance abbrev pub float_eq : Eq ℤ
float_eq = eq_of_discrete ℤ-discrete

-- A newer fix replaces the held one; none, one no newer or the same place again keeps it.
unfoldable pub later_fix :
    Position → Instant → Option Position → Instant → Option Position × Option Instant
later_fix held held_at none now = (some held, some held_at)
later_fix held held_at (some p) now =
    if leb now held_at
    then (some held, some held_at)
    else if p.lat == held.lat && p.lon == held.lon
    then (some p, some held_at)
    else (some p, some now)

first_fix : Option Position → Instant → Option Position × Option Instant
first_fix none now = (none, none)
first_fix (some p) now = (some p, some now)

unfoldable pub fix_of :
    Option Position → Option Instant → Option Position → Instant → Option Position × Option Instant
unfolding later_fix first_fix
fix_of (some held) (some held_at) position now = later_fix held held_at position now
fix_of _ _ position now = first_fix position now

-- `_fix`
unfoldable pub fix :
    Option VehicleState → Option Position → Instant → Option Position × Option Instant
unfolding fix_of
fix none position now = first_fix position now
fix (some v) position now = fix_of v.position v.position_at position now

same_episode : Option KeylessEpisode → KeylessEpisode → Bool
same_episode none e = false
same_episode (some p) e = p.started_at == e.started_at

same_binding : Option Binding → Option Binding → Bool
same_binding (some p) (some b) = b.journey == p.journey && p.bound_at == b.bound_at
same_binding _ _ = false

since_of : VehicleState → Instant → Option Binding → Option KeylessEpisode → Instant → Instant
unfolding same_episode same_binding
since_of v since binding (some e) received = if same_episode v.episode e then since else received
since_of v since binding none received = if same_binding v.binding binding then since else received

-- `_since`: where the vehicle's state begins.
unfoldable pub since :
    Option VehicleState → Observation → Option Binding → Option KeylessEpisode → Instant
unfolding since_of
since none o binding episode = o.received_at
since (some v) o binding episode = elim v.since [
  | none ↦ o.received_at
  | some s ↦ since_of v s binding episode o.received_at
]

-- The state that `_set_vehicle` records.
unfoldable pub vehicle_state :
    FeedState
    → Observation
    → VehicleId
    → VehicleStatus
    → Option TripKey
    → Option Binding
    → Option Reason
    → Option KeylessEpisode
    → VehicleState
unfolding fix since
vehicle_state state o vehicle status key binding reason episode =
    let previous = lookup vehicle state.vehicles in
    let (position, position_at) = fix previous (first as_position o) (at o) in
    record {
      vehicle = vehicle;
      feed = state.feed;
      status = status;
      last_seen = at o;
      trip_key = key;
      binding = binding;
      position = position;
      position_at = position_at;
      reason = reason;
      episode = episode;
      facts = o.facts;
      since = some (since previous o binding episode);
    }

unfoldable pub set_vehicle :
    FeedState
    → Observation
    → VehicleId
    → VehicleStatus
    → Option TripKey
    → Option Binding
    → Option Reason
    → Option KeylessEpisode
    → FeedState
unfolding vehicle_state
set_vehicle state o vehicle status key binding reason episode = record state {
  vehicles =
      insert vehicle (vehicle_state state o vehicle status key binding reason episode)
        state.vehicles;
}
