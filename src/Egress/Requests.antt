-- ===== src/Egress/Requests.antt =====
-- Requests through the pool and the cursors of delta polling (`Egress` of
-- src/obehy/realtime/runtime/egress.py, `Cursor` of manifest.py). What a proxy answers and the
-- clocks are inputs. The texts of the log are left out.
use obehy.Prelude.{
  ℕ, ◌+◌, String, Bool, true, false, not, ◌&&◌, ◌||◌, Option, none, some, List, [], ◌∷◌, ◌==◌,
  nat_eq, string_eq, ltb, is_some, if◌then◌else◌,
}
use obehy.Prelude.Dict.{Dict, lookup, insert, remove}
use obehy.Prelude.Raises.{Raises, ◌>>=◌}
use obehy.Model.Facts.{Instant}
use obehy.Runtime.Poll.{Poll, ok}
use obehy.Egress.Pool.{EgressPolicy, ProxyPool, pick, bench}

-- `BENCH_STATUSES`
unfoldable pub bench_status : Option ℕ → Bool
bench_status none = false
bench_status (some n) = n == 403 || n == 407 || n == 429

-- `_bench_reason` gives a reason.
unfoldable pub has_bench_reason : Poll → Bool
unfolding bench_status
has_bench_reason poll =
    bench_status poll.status || (not (is_some poll.status) && is_some poll.error)

-- One attempt: the times at which the pool reads its clock, what its list then holds, and the
-- answer that each proxy would give.
pub record Moment : Type 0 where
  pub asked_at : ℕ
  pub reading : Option (List String)
  pub picked_at : ℕ
  pub answer : String → Poll
  pub answered_at : ℕ

-- A poll that was sent, or the reason why it was not (`refused` of fetch.py).
pub data Result : Type 0 where
  answered : Poll → Result
  refused : String → Result

pub record Sent : Type 0 where
  pub pool : ProxyPool
  pub result : Result
  -- The proxies of the requests sent, in order.
  pub through : List String

-- After the loop: the last poll, if any was sent.
unfoldable pub finish : Option Poll → ProxyPool → Result
finish (some poll) pool = answered poll
finish none pool = elim pool.proxies [
  | [] ↦ refused "proxied: no proxy list"
  | _ ∷ _ ↦ refused "proxied: every proxy benched"
]

module _ (policy : EgressPolicy) where
  -- The loop of `_proxied` over its attempts.
  unfoldable pub attempts : List Moment → Option Poll → ProxyPool → Raises Sent
  unfolding finish has_bench_reason
  attempts [] poll pool = some (record { pool = pool; result = finish poll pool; through = [] })
  attempts (m ∷ ms) poll pool = pick policy m.asked_at m.reading m.picked_at pool >>= λ turn.
      elim turn.1 [
        | none ↦ some (record { pool = turn.0; result = finish poll turn.0; through = [] })
        | some (index, proxy) ↦ elim (has_bench_reason (m.answer proxy)) [
          | true ↦
              attempts ms (some (m.answer proxy)) (bench policy m.answered_at index turn.0) >>= λ s.
              some (record s { through = proxy ∷ s.through })
          | false ↦
              some
                (record { pool = turn.0; result = answered (m.answer proxy); through = proxy ∷ [] })
        ]
      ]

  -- `_proxied` with a pool
  unfoldable pub proxied : Moment → Moment → ProxyPool → Raises Sent
  unfolding attempts
  proxied first second pool = attempts (first ∷ second ∷ []) none pool

pub record Cursor : Type 0 where
  pub header : String
  pub param : String
  pub max_age_s : ℕ

abbrev pub Cursors : Type 0
Cursors = Dict String (String × Instant)

unfoldable pub unexpired : Cursor → Instant → Option (String × Instant) → Option String
unfolding lookup
unexpired cursor now none = none
unexpired cursor now (some (value, at)) =
    if ltb (at + cursor.max_age_s) now then none else some value

-- `_since`
unfoldable pub since : Option Cursor → String → Instant → Cursors → Option String
unfolding unexpired
since none name now cursors = none
since (some cursor) name now cursors = unexpired cursor now (lookup name cursors)

-- A header that is absent or empty drops the cursor.
unfoldable pub set_cursor : String → Instant → Option String → Cursors → Cursors
set_cursor name at none cursors = remove name cursors
set_cursor name at (some value) cursors =
    if value == "" then remove name cursors else insert name (value, at) cursors

-- `_advance`
unfoldable pub advance : Option Cursor → String → Poll → Cursors → Cursors
unfolding set_cursor
advance none name poll cursors = cursors
advance (some cursor) name poll cursors =
    if ok poll
    then set_cursor name poll.received_at (lookup cursor.header poll.headers) cursors
    else cursors
