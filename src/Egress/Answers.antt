-- ===== src/Egress/Answers.antt =====
-- What a request through the pool comes to, and what the cursors give back.
use obehy.Prelude.{
  ℕ, String, true, false, ◌&&◌, ◌≡◌, refl, Option, none, some, List, [], ◌∷◌, ◌==◌, string_eq,
  if◌then◌else◌, Bool-cases, inl, inr, arith,
}
use obehy.Prelude.Dict.{lookup, lookup-insert, lookup-remove}
use obehy.Model.Facts.{Instant}
use obehy.Runtime.Poll.{Poll, ok}
use obehy.Egress.Pool.{EgressPolicy, ProxyPool, refresh, pick, bench}
use obehy.Egress.Rotation.{Turn, pick_from-Turn}
use obehy.Prelude.Raises.{Raises, ◌>>=◌}
use obehy.Egress.Requests.{
  has_bench_reason, Moment, Result, answered, Sent, finish, attempts, proxied, Cursor, Cursors,
  unexpired, since, set_cursor, advance,
}

abbrev pub some_value : Option String → Option String
some_value none = none
some_value (some value) = if value == "" then none else some value

-- The cursor value that a poll's header states, with the time of the poll.
abbrev pub stated : Cursor → Poll → Option (String × Instant)
stated cursor poll = elim (some_value (lookup cursor.header poll.headers)) [
  | none ↦ none
  | some value ↦ some (value, poll.received_at)
]

lookup-set_cursor :
    (cursor : Cursor) (name : String) (poll : Poll) (cursors : Cursors) (j : String)
    (header : Option String)
    → lookup cursor.header poll.headers ≡ header
    → lookup j (set_cursor name poll.received_at header cursors)
      ≡ (if name == j then stated cursor poll else lookup j cursors)
unfolding set_cursor
lookup-set_cursor cursor name poll cursors j none e =
    ground (arith, lookup-remove name j cursors, e)
lookup-set_cursor cursor name poll cursors j (some v) e =
    ground
      (arith, lookup-remove name j cursors, lookup-insert name j (v, poll.received_at) cursors, e)

-- After a good poll of a channel, `_since` gives back the cursor value that the poll's header
-- states until it is too old, and none if it states none; a failed poll, and a poll of another
-- channel, change nothing.
pub since-advance :
    (cursor : Cursor) (name : String) (poll : Poll) (cursors : Cursors) (now : Instant) (j : String)
    → since (some cursor) j now (advance (some cursor) name poll cursors) ≡ (
        if ok poll && name == j
        then unexpired cursor now (stated cursor poll)
        else since (some cursor) j now cursors)
unfolding since advance
since-advance cursor name poll cursors now j =
    ground
      (arith, lookup-set_cursor cursor name poll cursors j (lookup cursor.header poll.headers) refl)

module _ (policy : EgressPolicy) (first second : Moment) (pool : ProxyPool) where
  abbrev at_first : ProxyPool
  at_first = refresh policy first.asked_at first.reading pool

  abbrev at_second : ProxyPool → ℕ → ProxyPool
  at_second after i =
      refresh policy second.asked_at second.reading (bench policy first.answered_at i after)

  -- What the two attempts come to: refused, as every proxy is benched; the first free proxy's
  -- answer; or, where that benched it, the answer of the next free one, if there is one.
  pub data Outcome : Result → List String → Type 0 where
    rested :
        {after : ProxyPool}
        → Turn first.picked_at at_first after none
        → Outcome (finish none after) []
    fine :
        {after : ProxyPool} {i : ℕ} {p : String}
        → Turn first.picked_at at_first after (some (i, p))
        → has_bench_reason (first.answer p) ≡ false
        → Outcome (answered (first.answer p)) (p ∷ [])
    alone :
        {after later : ProxyPool} {i : ℕ} {p : String}
        → Turn first.picked_at at_first after (some (i, p))
        → has_bench_reason (first.answer p) ≡ true
        → Turn second.picked_at (at_second after i) later none
        → Outcome (answered (first.answer p)) (p ∷ [])
    retried :
        {after later : ProxyPool} {i j : ℕ} {p q : String}
        → Turn first.picked_at at_first after (some (i, p))
        → has_bench_reason (first.answer p) ≡ true
        → Turn second.picked_at (at_second after i) later (some (j, q))
        → Outcome (answered (second.answer q)) (p ∷ q ∷ [])

  abbrev Ends : Raises Sent → Type 0
  Ends r = (sent : Sent) × (r ≡ some sent) × Outcome sent.result sent.through

  second-Ends :
      {after : ProxyPool} {i : ℕ} {p : String}
      → Turn first.picked_at at_first after (some (i, p))
      → has_bench_reason (first.answer p) ≡ true
      → (later : ProxyPool) (answer : Option (ℕ × String))
      → pick policy second.asked_at second.reading second.picked_at
          (bench policy first.answered_at i after)
        ≡ some (later, answer)
      → Turn second.picked_at (at_second after i) later answer
      → Ends (
          attempts policy
            (second ∷ [])
            (some (first.answer p))
            (bench policy first.answered_at i after)
          >>= λ s. some (record s { through = p ∷ s.through }))
  unfolding attempts finish
  second-Ends {after} {i} {p} turn bad later none e rest = rw e (_, refl, alone turn bad rest)
  second-Ends {after} {i} {p} turn bad later (some (j, q)) e next =
      elim (Bool-cases (has_bench_reason (second.answer q))) [
        | inl again ↦ rw (e, ◌>>=◌) (rw again (_, refl, retried turn bad next))
        | inr good ↦ rw (e, ◌>>=◌) (rw good (_, refl, retried turn bad next))
      ]

  first-Ends :
      (after : ProxyPool) (answer : Option (ℕ × String))
      → pick policy first.asked_at first.reading first.picked_at pool ≡ some (after, answer)
      → Turn first.picked_at at_first after answer
      → Ends (proxied policy first second pool)
  unfolding proxied attempts pick
  first-Ends after none e rest = rw e (_, refl, rested rest)
  first-Ends after (some (i, p)) e turn = elim (Bool-cases (has_bench_reason (first.answer p))) [
    | inl bad ↦
        let (later, answer, q, next) = pick_from-Turn second.picked_at (at_second after i) in
        rw (e, ◌>>=◌) (rw bad (second-Ends turn bad later answer q next))
    | inr good ↦ rw (e, ◌>>=◌) (rw good (_, refl, fine turn good))
  ]

  -- A request through the pool never raises. It is refused exactly when every proxy is benched;
  -- else it has the answer of the first free proxy, or, where that answer benches the proxy and
  -- another one is then free, the answer of that one; it is sent at most twice.
  pub proxied-Ends : Ends (proxied policy first second pool)
  unfolding pick
  proxied-Ends =
      let (after, answer, e, turn) = pick_from-Turn first.picked_at at_first in
      first-Ends after answer e turn
