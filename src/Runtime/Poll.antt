-- ===== src/Runtime/Poll.antt =====
-- One request to a channel (`Poll` of src/obehy/realtime/archive.py) and the channel's timing
-- (`Channel` of manifest.py). Durations and times are in microseconds.
use obehy.Prelude.{ℕ, String, Bool, false, not, ◌&&◌, Option, none, some, ltb, leb, is_some}
use obehy.Prelude.Dict.{Dict}
use obehy.Model.Facts.{Instant}

pub record Poll : Type 0 where
  pub requested_at : Instant
  pub received_at : Instant
  pub status : Option ℕ
  pub error : Option String
  pub headers : Dict String String

unfoldable pub status_ok : Option ℕ → Bool
status_ok none = false
status_ok (some n) = leb 200 n && ltb n 300

-- `Poll.ok`
unfoldable pub ok : Poll → Bool
unfolding status_ok
ok p = not (is_some p.error) && status_ok p.status

pub record Channel : Type 0 where
  pub interval_s : ℕ
  pub backoff_after : ℕ
  pub max_backoff_s : ℕ
