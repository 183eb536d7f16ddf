-- ===== src/Core/Binding.antt =====
-- Binding an observation to a journey: `_bind`, `_stale`, `_continued`, `_drop_unstarted` and
-- `_open` of core.py, and `continued` and `confirm` of infer/keyless.
use obehy.Prelude.{
  String, Bool, true, false, not, ◌&&◌, ◌||◌, Option, none, some, List, [], ◌∷◌, map, ◌==◌,
  string_eq, nat_eq, ltb, leb, if◌then◌else◌, is_some, Eq,
}
use obehy.Prelude.Equal.{eq_of_discrete}
use obehy.Prelude.Lists.{any}
use obehy.Prelude.Raises.{Raises, ◌>>=◌}
use obehy.Prelude.Dict.{Dict, lookup, remove, has}
use obehy.Model.Facts.{
  Instant, TripKey, trip_key_eq, Observation, at, first, all, as_trip_key, as_service_day,
  as_source_state,
}
use obehy.Model.Journey.{
  VehicleId, vehicle_id_eq, JourneyKey, journey_key_eq, Reason, Binding, BindingMethod,
  KeylessEpisode, Lifecycle, CallState, CallStatus, Instance,
}
use obehy.Model.State.{VehicleState, FeedState, discard}
use obehy.Index.{Call, Trip}
use obehy.Keyed
use obehy.Keyed.{Match, Outcome, found, refused, in_window, match_of}
use obehy.Core.Context.{Context, semantics_of}

unfoldable pub Lifecycle-discrete : Discrete Lifecycle
Lifecycle-discrete = hlevel

unfoldable pub Reason-discrete : Discrete Reason
Reason-discrete = hlevel

instance abbrev pub lifecycle_eq : Eq Lifecycle
lifecycle_eq = eq_of_discrete Lifecycle-discrete

unfoldable pub is_ambiguous : Reason → Bool
is_ambiguous Reason.ambiguous = true
is_ambiguous _ = false

-- `IDENTITY_NAMESPACES`
abbrev pub is_identity : String → Bool
is_identity namespace = namespace == "cis:line_trip"

module _ (ctx : Context) where
  unfoldable pub bind_key : Observation → Instant → TripKey → Raises Outcome
  bind_key o when key =
      Keyed.bind ctx.zone ctx.index ctx.policy.time key when (first as_service_day o)

  -- The further keys, while the first is ambiguous: the next that binds.
  unfoldable pub bind_further : Observation → Instant → List TripKey → Raises Outcome
  unfolding bind_key
  bind_further o when [] = some (refused Reason.ambiguous)
  bind_further o when (key ∷ keys) = elim (bind_key o when key) [
    | none ↦ none
    | some (found m) ↦ some (found m)
    | some (refused r) ↦ bind_further o when keys
  ]

  -- The first key, or a further one while it is ambiguous.
  unfoldable pub bind_any : Observation → Instant → List TripKey → Raises Outcome
  unfolding bind_further is_ambiguous
  bind_any o when [] = some (refused Reason.no_key)
  bind_any o when (key ∷ keys) = elim (bind_key o when key) [
    | none ↦ none
    | some (found m) ↦ some (found m)
    | some (refused r) ↦ if is_ambiguous r then bind_further o when keys else some (refused r)
  ]

  unfoldable pub same_trip : Match → Match → Bool
  same_trip a b =
      a.trip.trip_id == b.trip.trip_id && a.journey.service_date == b.journey.service_date

  -- A national key that finds the same trip on the same day names the journey instead.
  unfoldable pub rename : Observation → Instant → Match → List TripKey → Raises Match
  unfolding same_trip
  rename o when m [] = some m
  rename o when m (key ∷ keys) =
      let rest = rename o when m keys in
      if not (is_identity key.namespace) then rest else elim (bind_key o when key) [
        | none ↦ none
        | some (refused _) ↦ rest
        | some (found n) ↦ if same_trip n m then some (record m { journey = n.journey }) else rest
      ]

  unfoldable pub identified : Observation → Instant → Outcome → Raises Outcome
  unfolding rename
  identified o when (refused r) = some (refused r)
  identified o when (found m) =
      if is_identity m.journey.namespace
      then some (found m)
      else do n ← rename o when m (all as_trip_key o); some (found n)

  -- `_bind`
  unfoldable pub bind : Observation → Instant → Raises Outcome
  unfolding bind_any identified
  bind o when = do result ← bind_any o when (all as_trip_key o); identified o when result

  -- `_stale`
  unfoldable pub stale : Match → Observation → Bool
  stale m o =
      (semantics_of ctx o).pre_trip_after_end_is_stale
      && (elim (first as_source_state o) [ none ↦ false | some code ↦ code == "pre_trip" ])
      && ltb m.end_at (at o)

  -- The end of `_continued`: the binding holds while its journey's window does.
  unfoldable pub still_bound : Binding → Observation → Raises (Option Binding)
  still_bound b o = do
    m ← match_of ctx.zone ctx.index b.journey (ctx.index.trip b.trip_id)
    if not (in_window ctx.policy.time (at o) m) || stale m o then some none else some (some b)

  unfoldable pub continued_binding :
      Dict JourneyKey Instance → Observation → Option Binding → Bool → Raises (Option Binding)
  unfolding still_bound
  continued_binding instances o none same = some none
  continued_binding instances o (some b) same =
      if same && has b.journey instances then still_bound b o else some none

  unfoldable pub same_key : Option TripKey → TripKey → Bool
  same_key none key = false
  same_key (some k) key = k == key

  -- `_continued`
  unfoldable pub continued :
      Option VehicleState → TripKey → Observation → FeedState → Raises (Option Binding)
  unfolding continued_binding same_key
  continued none key o state = some none
  continued (some v) key o state =
      continued_binding state.instances o v.binding (same_key v.trip_key key)

  -- `keyless.continued`: an inferred binding continues while its episode does.
  is_inferred : BindingMethod → Bool
  is_inferred BindingMethod.inferred = true
  is_inferred BindingMethod.keyed = false

  same_start : Option KeylessEpisode → KeylessEpisode → Bool
  same_start none e = false
  same_start (some p) e = p.started_at == e.started_at

  kept_inferred : Binding → Instant → Raises (Option Binding)
  kept_inferred b when = do
    m ← match_of ctx.zone ctx.index b.journey (ctx.index.trip b.trip_id)
    if in_window ctx.policy.time when m then some (some b) else some none

  inferred_binding :
      Dict JourneyKey Instance → Instant → Option Binding → Bool → Raises (Option Binding)
  unfolding is_inferred kept_inferred
  inferred_binding instances when none same = some none
  inferred_binding instances when (some b) same =
      if is_inferred b.method && same && has b.journey instances
      then kept_inferred b when
      else some none

  unfoldable pub continued_inferred :
      Option VehicleState → KeylessEpisode → Instant → FeedState → Raises (Option Binding)
  unfolding inferred_binding same_start
  continued_inferred none episode when state = some none
  continued_inferred (some v) episode when state =
      inferred_binding state.instances when v.binding (same_start v.episode episode)

  -- `keyless.confirm`: confirmed once enough of the trip's stops were left.
  unfoldable pub confirm : Binding → KeylessEpisode → Binding
  confirm b episode = if b.confirmed then b else elim (ctx.engine.placed b episode) [
    | none ↦ b
    | some departures ↦
        if leb ctx.policy.keyless.confirm_departures departures
        then record b { confirmed = true }
        else b
  ]

-- --- the journey's instance
unfoldable pub bound_to : JourneyKey → VehicleState → Bool
bound_to journey v = elim v.binding [ none ↦ false | some b ↦ b.journey == journey ]

-- Another vehicle is bound to the journey.
unfoldable pub others_bound : JourneyKey → VehicleId → Dict VehicleId VehicleState → Bool
unfolding bound_to
others_bound journey vehicle vehicles =
    any (λ (v, current). not (v == vehicle) && bound_to journey current) vehicles

unfoldable pub never_started : Instance → Bool
never_started i = not (is_some i.progress) && not (i.lifecycle == Lifecycle.finished)

-- `_drop_unstarted`
unfoldable pub drop_unstarted : FeedState → JourneyKey → VehicleId → FeedState
unfolding never_started others_bound
drop_unstarted state journey vehicle = elim (lookup journey state.instances) [
  | none ↦ state
  | some i ↦
      if never_started i && not (others_bound journey vehicle state.vehicles)
      then record state {
        instances = remove journey state.instances;
        dirty = discard journey state.dirty;
      }
      else state
]

call_state : Call → CallState
call_state c = record {
  sequence = c.sequence;
  location_id = c.location_id;
  visit_n = c.visit_n;
  arrival = none;
  departure = none;
  estimated_arrival = none;
  estimated_departure = none;
  status = CallStatus.scheduled;
  source_class = none;
  passed_arrival = none;
  passed_departure = none;
  passenger = c.passenger_service;
  platform = none;
}

-- `_call_states`
unfoldable pub call_states : Trip → List CallState
unfolding call_state
call_states trip = map call_state trip.calls
