-- ===== src/Core/Context.antt =====
-- What a step reads besides the state: `Context` of core.py, and the timeline engine and the
-- keyless inference (src/obehy/realtime/timeline, infer/keyless), which the core calls through
-- the operations below.
use obehy.Prelude.{
  ℕ, String, Bool, false, ◌&&◌, Option, none, some, List, [], ◌∷◌, ◌==◌, string_eq, ◌≡◌,
  if◌then◌else◌,
}
use obehy.Prelude.Raises.{Raises}
use obehy.Model.Facts.{
  Instant, Interval, Position, LineRef, Observation, SourceSemantics, first, as_vehicle_key,
}
use obehy.Model.Journey.{VehicleId, JourneyKey, Binding, KeylessEpisode, Instance}
use obehy.Model.Effects.{Effect}
use obehy.Index.{Trip, IndexView}
use obehy.Policy.{Policy}
use obehy.Times.{Zone}
use obehy.Keyed.{Outcome}

pub record Engine : Type 0 where
  -- `timeline.advance`: one bound observation applied to its instance.
  pub advance : Instance → Trip → Observation → SourceSemantics → Raises (Instance × List Effect)
  -- `timeline.progress.at_origin_or_moving` and `past_first_stop` on the plan of a journey.
  pub at_origin_or_moving : JourneyKey → Trip → Option Position → Position → Instant → Bool
  pub past_first_stop : JourneyKey → Trip → Position → Bool
  -- `timeline.commit.terminus` on the plan of an instance and its best reading.
  pub terminus : Instance → Trip → Option Interval
  -- The estimates of `estimate_all` for one instance, as of `now`.
  pub estimate : Instance → Trip → Instant → Instance
  -- `infer.keyless.episode.advance`
  pub episode : Option KeylessEpisode → Observation → SourceSemantics → Option KeylessEpisode
  -- `infer.keyless.bind` (its result), and the number of departures that `place` finds.
  pub infer : LineRef → KeylessEpisode → Observation → Raises Outcome
  pub placed : Binding → KeylessEpisode → Option ℕ

-- What the core relies on: the engine changes an instance, never which journey it is.
pub record EngineLaws (engine : Engine) : Type 0 where
  pub keeps_journey :
      (i j : Instance) (trip : Trip) (o : Observation) (s : SourceSemantics) (es : List Effect)
      → engine.advance i trip o s ≡ some (j, es)
      → j.journey ≡ i.journey
  pub estimate_keeps_journey :
      (i : Instance) (trip : Trip) (now : Instant)
      → (engine.estimate i trip now).journey ≡ i.journey

pub record Context : Type 0 where
  pub zone : Zone
  pub index : IndexView
  pub policy : Policy
  pub semantics : List (String × String × SourceSemantics)
  pub engine : Engine

abbrev pub plain : SourceSemantics
plain = record {
  pre_trip_delay_is_elapsed = false;
  pre_trip_after_end_is_stale = false;
  unchanged_entry_is_no_news = false;
  delay_floor_minute = false;
}

find_semantics : String → String → List (String × String × SourceSemantics) → SourceSemantics
find_semantics source channel [] = plain
find_semantics source channel ((s, c, semantics) ∷ rest) =
    if s == source && c == channel then semantics else find_semantics source channel rest

-- `Context.semantics_of`
unfoldable pub semantics_of : Context → Observation → SourceSemantics
unfolding find_semantics
semantics_of ctx o = find_semantics o.source o.channel ctx.semantics

-- `vehicle_of`
unfoldable pub vehicle_of : Observation → Option VehicleId
vehicle_of o = elim (first as_vehicle_key o) [
  | none ↦ none
  | some id ↦ some (record { source = o.source; source_vehicle_id = id })
]
