-- ===== src/Policy.antt =====
-- The values of the realtime policy that the core reads (src/obehy/realtime/policy.py).
-- Durations are in microseconds.
use obehy.Prelude.{ℕ, ◌+◌, String, or_else, ◌==◌, string_eq, if◌then◌else◌, List, [], ◌∷◌}
use obehy.Prelude.Dict.{Dict, lookup}
use obehy.Model.Facts.{Float}

pub record ByMode : Type 0 where
  pub default : ℕ
  pub overrides : Dict String ℕ

-- `ByMode.__call__`
unfoldable pub by_mode : ByMode → String → ℕ
by_mode b mode = or_else (lookup mode b.overrides) b.default

pub record TimePolicy : Type 0 where
  pub pre_trip_s : ByMode
  pub max_delay_s : ByMode

pub record LifecyclePolicy : Type 0 where
  pub stale_after_s : ByMode
  pub predict_without_data_s : ByMode
  pub forget_after_s : ℕ

pub record RailPolicy : Type 0 where
  pub position_preference : List String
  pub position_fresh_s : ℕ
  pub event_tolerance_s : ℕ

-- `RailPolicy.rank`: the place in the preference, or its length for a source not in it.
unfoldable pub rank_in : List String → String → ℕ
rank_in [] source = 0
rank_in (s ∷ order) source = if s == source then 0 else 1 + rank_in order source

abbrev pub rank : RailPolicy → String → ℕ
rank rail source = rank_in rail.position_preference source

pub record KeylessPolicy : Type 0 where
  pub episode_gap_s : ℕ
  pub confirm_departures : ℕ

pub record Policy : Type 0 where
  pub time : TimePolicy
  pub lifecycle : LifecyclePolicy
  pub rail : RailPolicy
  pub keyless : KeylessPolicy

pub record ProgressPolicy : Type 0 where
  pub agree_within : Float
  pub max_commit_lag_s : ℕ
  pub max_event_interval_s : ℕ
  pub max_inferred_spread_s : ℕ
  pub max_extrapolate_s : ℕ
  pub jitter_m : ℕ
