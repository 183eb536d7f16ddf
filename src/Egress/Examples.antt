-- ===== src/Egress/Examples.antt =====
-- The pool, the requests and the cursors at concrete inputs.
use obehy.Prelude.{
  ℕ, ◌≡◌, refl, ◌≢◌, String, ◌&&◌, none, some, [], ◌∷◌, ◌==◌, string_eq, arith, if◌then◌else◌,
  Option,
}
use obehy.Prelude.Dict.{lookup, insert}
use obehy.Runtime.Poll.{Poll, ok}
use obehy.Egress.Pool.{EgressPolicy, ProxyPool, pick_from, pick, bench, refresh, reread}
use obehy.Egress.Rotation.{Turn, pick_from-Turn, pick-bench}
use obehy.Egress.Requests.{Moment, Sent, proxied, Cursor, unexpired, since, advance}
use obehy.Egress.Answers.{Outcome, proxied-Ends, stated, since-advance}

abbrev policy : EgressPolicy
policy = record { refresh_s = 3600000000; cooldown_s = 600000000 }

-- Two proxies; the second is next.
abbrev pool : ProxyPool
pool = record {
  proxies = "http://a" ∷ "http://b" ∷ [];
  benched_until = [];
  next = 1;
  refreshed_at = some 0;
}

abbrev blocked : Poll
blocked = record {
  requested_at = 0;
  received_at = 1;
  status = some 403;
  error = none;
  headers = [];
}

abbrev good : Poll
good = record {
  requested_at = 0;
  received_at = 1;
  status = some 200;
  error = none;
  headers = ("x-cursor", "17") ∷ [];
}

-- The second proxy is blocked, the first is not.
abbrev attempt : Moment
attempt = record {
  asked_at = 10;
  reading = none;
  picked_at = 20;
  answer = λ proxy. if proxy == "http://b" then blocked else good;
  answered_at = 30;
}

pick_from-Turn_example :
    (after : ProxyPool) × (answer : Option (ℕ × String)) × (pick_from 20 pool
      ≡ some (after, answer))
    × Turn 20 pool after answer
pick_from-Turn_example = pick_from-Turn 20 pool

wraps : pick_from 20 pool ≡ some (record pool { next = 0 }, some (1, "http://b"))
unfolding pick_from lookup
wraps = refl

skips :
    pick_from 20 (bench policy 10 1 pool)
    ≡ some (record (bench policy 10 1 pool) { next = 1 }, some (0, "http://a"))
unfolding pick_from bench lookup insert
skips = refl

-- The same pool before its list is read: the pick reads it.
abbrev unread_pool : ProxyPool
unread_pool = record pool { refreshed_at = none }

skips_after_refresh :
    pick policy 20 (some ("http://a" ∷ "http://b" ∷ [])) 20 (bench policy 10 1 unread_pool)
    ≡ some (
      record (bench policy 10 1 unread_pool) { next = 1; refreshed_at = some 20 },
      some (0, "http://a"),
    )
unfolding pick pick_from refresh reread bench lookup insert mathlib.Core.Bool.decide
    obehy.Egress.Pool.Proxies-discrete obehy.Prelude.Equal.String_discrete
skips_after_refresh = refl

pick-bench_example : ◌≢◌ {A = ℕ} 0 1
unfolding bench
pick-bench_example =
    pick-bench policy 10 20 20 1 (some ("http://a" ∷ "http://b" ∷ [])) unread_pool (omega arith)
      (record (bench policy 10 1 unread_pool) { next = 1; refreshed_at = some 20 }) 0 "http://a"
      skips_after_refresh refl

proxied-Ends_example :
    (sent : Sent) × (proxied policy attempt attempt pool ≡ some sent)
    × Outcome policy attempt attempt pool sent.result sent.through
proxied-Ends_example = proxied-Ends policy attempt attempt pool

abbrev cursor : Cursor
cursor = record { header = "x-cursor"; param = "since"; max_age_s = 60000000 }

since-advance_example :
    since (some cursor) "sz/trains" 5 (advance (some cursor) "sz/trains" good []) ≡ (
      if ok good && string_eq.same "sz/trains" "sz/trains"
      then unexpired cursor 5 (stated cursor good)
      else since (some cursor) "sz/trains" 5 [])
since-advance_example = since-advance cursor "sz/trains" good [] 5 "sz/trains"

gives_back :
    since (some cursor) "sz/trains" 5 (advance (some cursor) "sz/trains" good []) ≡ some "17"
unfolding since advance ok lookup insert
gives_back = refl
