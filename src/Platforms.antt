-- ===== src/Platforms.antt =====
-- Platform assignments from station boards (src/obehy/realtime/platforms.py).
use Prim.Native.String
use obehy.Prelude.{
  String, ℕ, zero, suc, Bool, false, ◌&&◌, Option, none, some, List, [], ◌∷◌, ◌++◌, ◌==◌, string_eq,
  nat_beq, if◌then◌else◌, Eq,
}
use obehy.Prelude.Equal.{eq_of_discrete}
use obehy.Prelude.Lists.{get_elem?}
use obehy.Prelude.Raises.{Raises, ◌>>=◌}
use obehy.Prelude.Dict.{lookup, insert}
use obehy.Model.Facts.{Date, EventKind, PlatformLabel, PlatformAssignment, Observation}
use obehy.Model.Journey.{JourneyKey, journey_key_eq, Platform, CallState, Instance, public}
use obehy.Model.State.{FeedState, add_dirty}
use obehy.Model.Effects.{Effect, record_platform, observation_result, unresolved, UnresolvedKind}
use obehy.Index.{Call, IndexView}
use obehy.Times.{Zone, instant}
use obehy.Keyed.{Match, Outcome, found, refused}
use obehy.Runs.{public_call}

pub PlatformLabel-discrete : Discrete PlatformLabel
PlatformLabel-discrete = hlevel

instance abbrev pub platform_label_eq : Eq PlatformLabel
platform_label_eq = eq_of_discrete PlatformLabel-discrete

module _ (zone : Zone) (index : IndexView) (day : Date) (fact : PlatformAssignment) where
  scheduled_seconds : EventKind → Call → Option ℕ
  scheduled_seconds EventKind.arrival c = c.arrival
  scheduled_seconds _ c = c.departure

  at_station : Call → Bool
  at_station c = c.passenger_service && (elim (index.location_key c.location_id "sr70") [
    | none ↦ false
    | some code ↦ code == fact.station
  ])

  on_time : Option ℕ → Bool
  on_time none = false
  on_time (some s) =
      nat_beq (instant zone (record { service_date = day; seconds = s })) fact.scheduled

  -- `_call`: the passenger call at the station that is scheduled at the row's time.
  unfoldable pub call_from : ℕ → List Call → Option ℕ
  unfolding scheduled_seconds at_station on_time
  call_from i [] = none
  call_from i (c ∷ cs) =
      if at_station c && on_time (scheduled_seconds fact.kind c)
      then some i
      else call_from (suc i) cs

-- `calls[i] = c`
unfoldable pub set_call : List CallState → ℕ → CallState → List CallState
set_call [] i v = []
set_call (c ∷ cs) zero v = v ∷ cs
set_call (c ∷ cs) (suc i) v = c ∷ set_call cs i v

-- The platform that is shown: the held one, while its value and label are the same.
unfoldable pub shown_platform : Option Platform → Platform → Platform
shown_platform none new = new
shown_platform (some held) new =
    if held.value == new.value && held.label == new.label then held else new

platform_result : Observation → JourneyKey → Instance → Effect
platform_result o journey i = observation_result (record {
  observation = o;
  journey = some journey;
  reason = none;
  public = public i;
  state_since = none;
})

module _ (zone : Zone) (index : IndexView) where
  platform_of : PlatformAssignment → Observation → Platform
  platform_of fact o = record {
    value = fact.value;
    label = fact.label;
    boarding_point_id = none;
    assigned_at = o.received_at;
    source = o.source;
  }

  -- The instance with the platform at one of its calls.
  unfoldable pub with_platform :
      Instance → Observation → PlatformAssignment → ℕ → CallState → Instance
  unfolding platform_of shown_platform set_call
  with_platform i o fact n call = record i {
    calls =
        set_call i.calls n
          (record call { platform = some (shown_platform call.platform (platform_of fact o)) });
    freshness = record i.freshness { heard_at = o.received_at };
  }

  unfoldable pub assign_call :
      FeedState
      → Observation
      → PlatformAssignment
      → JourneyKey
      → Instance
      → List Effect
      → ℕ
      → Raises (FeedState × List Effect)
  unfolding platform_of platform_result
  assign_call state o fact journey i effects n = do
    call ← get_elem? i.calls n
    place ← public_call i n fact.kind
    some (
      record state {
        instances = insert journey (with_platform i o fact n call) state.instances;
        dirty = add_dirty journey state.dirty;
      },
      effects
          ++ record_platform (record {
            journey = place.0;
            location_id = call.location_id;
            visit_n = place.1;
            kind = fact.kind;
            platform = platform_of fact o;
          })
            ∷ platform_result o journey i
            ∷ [],
    )

  kind_text : EventKind → String
  kind_text EventKind.arrival = "arrival"
  kind_text EventKind.departure = "departure"
  kind_text EventKind.passage = "passage"

  -- `f"{fact.station} {fact.kind} {fact.scheduled.isoformat()}"`
  row_name : PlatformAssignment → String
  unfolding kind_text
  row_name fact = String.◌++◌ fact.station (
      String.◌++◌ " "
        (String.◌++◌ (kind_text fact.kind) (String.◌++◌ " " (zone.isoformat fact.scheduled))))

  unfoldable pub unplaced :
      FeedState
      → Observation
      → PlatformAssignment
      → JourneyKey
      → Instance
      → List Effect
      → FeedState × List Effect
  unfolding platform_result row_name
  unplaced state o fact journey i effects = (
    state,
    effects
        ++ unresolved
            (record { observation = o; kind = UnresolvedKind.platform; name = row_name fact })
          ∷ platform_result o journey i
          ∷ [],
  )

  -- The row's call gets its platform; a row that names no call is reported.
  unfoldable pub assign_platform :
      FeedState
      → Observation
      → PlatformAssignment
      → Match
      → Instance
      → List Effect
      → Raises (FeedState × List Effect)
  unfolding assign_call unplaced
  assign_platform state o fact m i effects =
      elim (call_from zone index m.journey.service_date fact 0 m.trip.calls) [
        | none ↦ some (unplaced state o fact m.journey i effects)
        | some n ↦ assign_call state o fact m.journey i effects n
      ]

  unfoldable pub platform_outcome :
      (FeedState → Match → Raises (FeedState × List Effect))
      → FeedState
      → Observation
      → PlatformAssignment
      → Outcome
      → Raises (FeedState × List Effect)
  unfolding assign_platform
  platform_outcome open_instance state o fact (refused r) = some (
    state,
    observation_result (record {
      observation = o;
      journey = none;
      reason = some r;
      public = [];
      state_since = none;
    })
        ∷ [],
  )
  platform_outcome open_instance state o fact (found m) = do
    opened ← open_instance state m
    i ← lookup m.journey opened.0.instances
    assign_platform opened.0 o fact m i opened.1

  -- `apply_platform`, with the core's `_bind` and `_open`.
  unfoldable pub apply_platform :
      (Observation → Raises Outcome)
      → (FeedState → Match → Raises (FeedState × List Effect))
      → FeedState
      → Observation
      → PlatformAssignment
      → Raises (FeedState × List Effect)
  unfolding platform_outcome
  apply_platform bind open_instance state o fact = do
    outcome ← bind o
    platform_outcome open_instance state o fact outcome
