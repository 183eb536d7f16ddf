-- ===== src/Keyed/Examples.antt =====
-- The theorems of keyed binding at concrete inputs.
use obehy.Prelude.{◌+◌, ◌*◌, ◌≡◌, refl, true, none, some, [], ◌∷◌}
use obehy.Core.Samples.{sample_index, sample_match, sample_key, sample_policy, ten_past, utc}
use obehy.Keyed.{found, bind, in_window, dates, select}
use obehy.Keyed.Sound.{Runs, bind-found}
use obehy.Keyed.Nearest.{Choice, select-Choice}

binds :
    bind utc sample_index sample_policy.time sample_key ten_past none ≡ some (found sample_match)
unfolding bind obehy.Keyed.collect obehy.Times.candidate_service_dates obehy.Keyed.visit
    obehy.Index.valid_on obehy.Index.start obehy.Index.end obehy.Keyed.select
    obehy.Prelude.Sort.sort_by obehy.Keyed.in_window obehy.Times.instant obehy.Policy.by_mode
    obehy.Prelude.Dict.lookup
binds = refl

bind-found_example :
    Runs utc sample_index
      (dates utc sample_index ten_past none)
      (sample_index.keys sample_key.namespace sample_key.key)
      sample_match
    × (in_window sample_policy.time ten_past sample_match ≡ true)
bind-found_example =
    bind-found utc sample_index sample_policy.time sample_key ten_past none sample_match binds

select-Choice_example :
    Choice sample_policy.time ten_past
      (sample_match ∷ [])
      (select sample_policy.time ten_past (sample_match ∷ []))
select-Choice_example = select-Choice sample_policy.time ten_past (sample_match ∷ [])
