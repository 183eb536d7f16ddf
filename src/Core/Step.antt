-- ===== src/Core/Step.antt =====
-- `step` of core.py: one observation applied to the state of its feed, with its effects.
use obehy.Prelude.{
  Bool, true, false, ◌&&◌, Option, none, some, List, [], ◌∷◌, ◌++◌, map, ◌==◌, nat_eq,
  if◌then◌else◌, Eq,
}
use obehy.Prelude.Equal.{eq_of_discrete}
use obehy.Prelude.Raises.{Raises, ◌>>=◌}
use obehy.Prelude.Dict.{lookup}
use obehy.Model.Facts.{
  Feed, Instant, TripKey, LineRef, facts_eq, Observation, at, first, as_trip_key, as_line_ref,
}
use obehy.Model.Journey.{
  VehicleId, vehicle_id_eq, JourneyKey, journey_key_eq, Reason, Binding, BindingMethod,
  KeylessEpisode, public,
}
use obehy.Model.State.{VehicleStatus, VehicleState, FeedState}
use obehy.Model.Effects.{Effect, assign_vehicle, observation_result}
use obehy.Keyed.{Match, Outcome, found, refused}
use obehy.Core.Context.{Context, semantics_of}
use obehy.Core.Vehicle.{set_vehicle, vehicle_state}
use obehy.Core.Binding.{
  bind, stale, continued, continued_inferred, confirm, drop_unstarted, lifecycle_eq,
}
use obehy.Core.Journey.{open_journey}
use obehy.Core.Follow.{follow}

unfoldable pub Feed-discrete : Discrete Feed
Feed-discrete = hlevel

instance abbrev pub feed_eq : Eq Feed
feed_eq = eq_of_discrete Feed-discrete

-- The same fix again: it changes nothing and is not stored again.
unfoldable pub repeated : Option VehicleState → Observation → Bool
repeated none o = false
repeated (some v) o = elim o.observed_at [
  | none ↦ false
  | some t ↦ v.last_seen == t && v.facts == o.facts
]

unfoldable pub refusal_status : Reason → VehicleStatus
refusal_status Reason.not_in_service = VehicleStatus.not_in_service
refusal_status _ = VehicleStatus.unmatched

abbrev pub result :
    Observation → Option JourneyKey → Option Reason → List JourneyKey → Option Instant → Effect
result o journey reason journeys since = observation_result (record {
  observation = o;
  journey = journey;
  reason = reason;
  public = journeys;
  state_since = since;
})

-- An observation that is not bound: the vehicle is recorded with the reason.
unfoldable pub unbound :
    FeedState
    → Observation
    → VehicleId
    → VehicleStatus
    → Option TripKey
    → Reason
    → Option KeylessEpisode
    → FeedState × List Effect
unbound state o vehicle status key reason episode =
    let recorded = vehicle_state state o vehicle status key none (some reason) episode in
    (
      set_vehicle state o vehicle status key none (some reason) episode,
      result o none (some reason) [] recorded.since ∷ [],
    )

module _ (ctx : Context) where
  -- A new binding opens its journey, and each public journey is assigned the vehicle.
  unfoldable pub bound_anew :
      FeedState
      → Observation
      → VehicleId
      → Option VehicleState
      → Option TripKey
      → Option KeylessEpisode
      → (Binding → Binding)
      → BindingMethod
      → Bool
      → Match
      → Raises (FeedState × List Effect)
  bound_anew state o vehicle previous key episode settle method confirmed m = do
    opened ← open_journey ctx state m o
    i ← lookup m.journey opened.0.instances
    let binding : Binding = record {
      vehicle = vehicle;
      journey = m.journey;
      trip_id = m.trip.trip_id;
      method = method;
      bound_at = at o;
      confirmed = confirmed;
    }
    follow ctx opened.0 o vehicle previous key episode (settle binding) (
        opened.1
        ++ map
            (λ journey. assign_vehicle (record { vehicle = vehicle; journey = journey; at = at o }))
            (public i))

  -- A key that is left over from an earlier trip: the journey it opened is forgotten.
  unfoldable pub keyed_anew :
      FeedState
      → Observation
      → VehicleId
      → Option VehicleState
      → TripKey
      → Outcome
      → Raises (FeedState × List Effect)
  unfolding bound_anew refusal_status
  keyed_anew state o vehicle previous key (refused r) =
      some (unbound state o vehicle (refusal_status r) (some key) r none)
  keyed_anew state o vehicle previous key (found m) =
      if stale ctx m o
      then some (
          unbound (drop_unstarted state m.journey vehicle) o vehicle VehicleStatus.unmatched
            (some key) Reason.stale_key none)
      else bound_anew state o vehicle previous (some key) none (λ b. b) BindingMethod.keyed true m

  -- The binding that continues, else a new one.
  unfoldable pub after_keyed :
      FeedState
      → Observation
      → VehicleId
      → Option VehicleState
      → TripKey
      → Option Binding
      → Raises (FeedState × List Effect)
  unfolding keyed_anew
  after_keyed state o vehicle previous key (some b) =
      follow ctx state o vehicle previous (some key) none b []
  after_keyed state o vehicle previous key none = do
    outcome ← bind ctx o (at o)
    keyed_anew state o vehicle previous key outcome

  unfoldable pub step_keyed :
      FeedState
      → Observation
      → VehicleId
      → Option VehicleState
      → TripKey
      → Raises (FeedState × List Effect)
  unfolding after_keyed
  step_keyed state o vehicle previous key = do
    kept ← continued ctx previous key o state
    after_keyed state o vehicle previous key kept

  unfoldable pub inferred_anew :
      FeedState
      → Observation
      → VehicleId
      → Option VehicleState
      → KeylessEpisode
      → Outcome
      → Raises (FeedState × List Effect)
  unfolding bound_anew refusal_status
  inferred_anew state o vehicle previous episode (refused r) =
      some (unbound state o vehicle (refusal_status r) none r (some episode))
  inferred_anew state o vehicle previous episode (found m) =
      bound_anew state o vehicle previous none (some episode) (λ b. confirm ctx b episode)
        BindingMethod.inferred false m

  unfoldable pub after_inferred :
      FeedState
      → Observation
      → VehicleId
      → Option VehicleState
      → LineRef
      → KeylessEpisode
      → Option Binding
      → Raises (FeedState × List Effect)
  unfolding inferred_anew
  after_inferred state o vehicle previous line episode (some b) =
      follow ctx state o vehicle previous none (some episode) (confirm ctx b episode) []
  after_inferred state o vehicle previous line episode none = do
    outcome ← ctx.engine.infer line episode o
    inferred_anew state o vehicle previous episode outcome

  unfoldable pub step_keyless :
      FeedState
      → Observation
      → VehicleId
      → Option VehicleState
      → LineRef
      → KeylessEpisode
      → Raises (FeedState × List Effect)
  unfolding after_inferred
  step_keyless state o vehicle previous line episode = do
    kept ← continued_inferred ctx previous episode (at o) state
    after_inferred state o vehicle previous line episode kept

  abbrev pub prior_episode : Option VehicleState → Option KeylessEpisode
  prior_episode none = none
  prior_episode (some v) = v.episode

  unfoldable pub without_key : FeedState → Observation → VehicleId → FeedState × List Effect
  without_key state o vehicle =
      unbound state o vehicle VehicleStatus.unmatched none Reason.no_key none

  unfoldable pub step_unkeyed :
      FeedState → Observation → VehicleId → Option VehicleState → Raises (FeedState × List Effect)
  unfolding without_key
  step_unkeyed state o vehicle previous = elim (first as_line_ref o) [
    | none ↦ some (without_key state o vehicle)
    | some line ↦ (elim (ctx.engine.episode (prior_episode previous) o (semantics_of ctx o)) [
      | none ↦ some (without_key state o vehicle)
      | some episode ↦ step_keyless state o vehicle previous line episode
    ])
  ]

  -- An observation of a vehicle.
  unfoldable pub step_vehicle :
      FeedState → Observation → VehicleId → Raises (FeedState × List Effect)
  unfolding step_unkeyed
  step_vehicle state o vehicle =
      let previous = lookup vehicle state.vehicles in
      if repeated previous o then some (state, []) else elim (first as_trip_key o) [
        | some key ↦ step_keyed state o vehicle previous key
        | none ↦ step_unkeyed state o vehicle previous
      ]
