-- ===== src/Egress/Pool.antt =====
-- The proxy pool (`ProxyPool` of src/obehy/realtime/runtime/egress.py, `EgressPolicy` of
-- policy.py). Times of the monotonic clock are in microseconds. What reading and parsing the
-- saved list gives is an input: no value if the file cannot be read.
use obehy.Prelude.{
  ℕ, zero, suc, ◌+◌, ◌%◌, String, Bool, false, Option, none, some, List, [], ◌∷◌, Eq, ◌==◌, nat_eq,
  ltb, leb, or_else, if◌then◌else◌, String_discrete,
}
use obehy.Prelude.Equal.{eq_of_discrete}
use obehy.Prelude.Dict.{Dict, lookup, insert}
use obehy.Prelude.Lists.{length, get_elem?}
use obehy.Prelude.Raises.{Raises, ◌>>=◌}

pub record EgressPolicy : Type 0 where
  pub refresh_s : ℕ
  pub cooldown_s : ℕ

pub record ProxyPool : Type 0 where
  pub proxies : List String
  pub benched_until : Dict ℕ ℕ
  pub next : ℕ
  pub refreshed_at : Option ℕ

unfoldable pub Proxies-discrete : Discrete (List String)
Proxies-discrete = hlevel String_discrete

instance abbrev pub proxies_eq : Eq (List String)
proxies_eq = eq_of_discrete Proxies-discrete

-- A list that differs replaces the pool; an unreadable or empty one keeps it.
unfoldable pub reread : Option (List String) → ProxyPool → ProxyPool
reread none pool = pool
reread (some []) pool = pool
reread (some (p ∷ ps)) pool =
    if (p ∷ ps) == pool.proxies
    then pool
    else record pool { proxies = p ∷ ps; benched_until = []; next = 0 }

unfoldable pub is_recent : EgressPolicy → ℕ → Option ℕ → Bool
is_recent policy now none = false
is_recent policy now (some t) = ltb now (t + policy.refresh_s)

-- `refresh`
unfoldable pub refresh : EgressPolicy → ℕ → Option (List String) → ProxyPool → ProxyPool
unfolding reread is_recent
refresh policy now reading pool =
    if is_recent policy now pool.refreshed_at
    then pool
    else reread reading (record pool { refreshed_at = some now })

-- `benched_until.get(index, 0.0) <= now`
unfoldable pub is_free : Dict ℕ ℕ → ℕ → ℕ → Bool
is_free benched now index = leb (or_else (lookup index benched) 0) now

-- The loop of `pick` over the steps left: the first free index from `place` on, round the pool.
unfoldable pub next_free : Dict ℕ ℕ → ℕ → ℕ → ℕ → ℕ → Option ℕ
unfolding is_free
next_free benched now count place zero = none
next_free benched now count place (suc left) =
    let rest = next_free benched now count (place + 1) left in
    if is_free benched now (place % count) then some (place % count) else rest

-- The end of `pick`: `self.proxies[index]` raises past the end.
unfoldable pub picked : ProxyPool → Option ℕ → Raises (ProxyPool × Option (ℕ × String))
picked pool none = some (pool, none)
picked pool (some index) = get_elem? pool.proxies index >>= λ proxy.
    some (record pool { next = (index + 1) % length pool.proxies }, some (index, proxy))

-- `pick`, on the pool that its `refresh` leaves
unfoldable pub pick_from : ℕ → ProxyPool → Raises (ProxyPool × Option (ℕ × String))
unfolding next_free picked
pick_from now pool =
    let count = length pool.proxies in
    picked pool (next_free pool.benched_until now count pool.next count)

unfoldable pub pick :
    EgressPolicy
    → ℕ
    → Option (List String)
    → ℕ
    → ProxyPool
    → Raises (ProxyPool × Option (ℕ × String))
unfolding refresh pick_from
pick policy asked reading now pool = pick_from now (refresh policy asked reading pool)

-- `bench`
unfoldable pub bench : EgressPolicy → ℕ → ℕ → ProxyPool → ProxyPool
bench policy now index pool = record pool {
  benched_until = insert index (now + policy.cooldown_s) pool.benched_until;
}
