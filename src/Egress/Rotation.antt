-- ===== src/Egress/Rotation.antt =====
-- What the pool's `pick` gives: the first free proxy round the pool, or the word that every
-- proxy is benched; it never raises.
use obehy.Prelude.{
  ℕ, zero, suc, ◌+◌, ◌-◌, ◌%◌, ◌<◌, String, true, false, ◌≡◌, refl, Option, none, some, List, [],
  ◌∷◌, inl, inr, Bool-cases, arith, sym, ap, subst, ◌≢◌, nat_eq, ◌==◌, ◌∙◌, ◌*◌, ◌/◌,
}
use native.Mathlib.Decide.{dec_lt}
use obehy.Prelude.Dict.{Dict, lookup-insert}
use obehy.Prelude.Lists.{length, get_elem?}
use obehy.Egress.Pool.{
  ProxyPool, is_free, next_free, picked, pick_from, EgressPolicy, bench, refresh, reread, is_recent,
  pick, proxies_eq,
}

place_zero : (place : ℕ) → place + 0 ≡ place
place_zero place = omega arith

place_suc : (place j : ℕ) → place + suc j ≡ place + 1 + j
place_suc place j = omega arith

module _ (benched : Dict ℕ ℕ) (now count : ℕ) where
  -- The first `k` places from `place` on are benched.
  abbrev pub Benched : ℕ → ℕ → Type 0
  Benched place k = (j : ℕ) → j < k → is_free benched now ((place + j) % count) ≡ false

  Benched-suc :
      (place k : ℕ)
      → is_free benched now (place % count) ≡ false
      → Benched (place + 1) k
      → Benched place (suc k)
  Benched-suc place k first rest zero h = rw (place_zero place) first
  Benched-suc place k first rest (suc j) h = rw (place_suc place j) (rest j (omega arith))

  abbrev First : ℕ → ℕ → Option ℕ → Type 0
  First place left none = Benched place left
  First place left (some i) =
      (k : ℕ) × (k < left)
      × (i ≡ (place + k) % count)
      × (is_free benched now i ≡ true)
      × Benched place k

  First-suc :
      (place left : ℕ) (o : Option ℕ)
      → is_free benched now (place % count) ≡ false
      → First (place + 1) left o
      → First place (suc left) o
  First-suc place left none first h = Benched-suc place left first h
  First-suc place left (some i) first (k, lt, e, free, h) = (
    suc k,
    omega (arith, lt),
    e ∙ ap (λ n. n % count) (sym (place_suc place k)),
    free,
    Benched-suc place k first h,
  )

  next_free-First : (place left : ℕ) → First place left (next_free benched now count place left)
  unfolding next_free
  next_free-First place zero = λ j h. absurd (omega (arith, h))
  next_free-First place (suc left) = elim (Bool-cases (is_free benched now (place % count))) [
    | inl free ↦ rw free (
      0,
      omega arith,
      ap (λ n. n % count) (sym (place_zero place)),
      free,
      λ j h. absurd (omega (arith, h)),
    )
    | inr taken ↦ rw taken (
        First-suc place left (next_free benched now count (place + 1) left) taken
          (next_free-First (place + 1) left))
  ]

mod_of_block : (q c i : ℕ) → i < c → (q * c + i) % c ≡ i
mod_of_block q c i h = grind arith

-- Every index is a number of steps from any place.
steps_to : (place i c : ℕ) → i < c → (j : ℕ) × (j < c) × ((place + j) % c ≡ i)
steps_to place i c h = elim (dec_lt i (place % c)) [
  | yes behind ↦ (
    i + c - place % c,
    omega (arith, behind),
    turn (place / c + 1) (i + c - place % c) (grind arith),
  )
  | no ahead ↦ (i - place % c, omega arith, turn (place / c) (i - place % c) (grind arith))
]
  where
    turn : (q j : ℕ) → place + j ≡ q * c + i → (place + j) % c ≡ i
    turn q j e = rw e (mod_of_block q c i h)

get_elem?_lt :
    {A : Type 0} (xs : List A) (i : ℕ) → i < length xs → (x : A) × (get_elem? xs i ≡ some x)
get_elem?_lt [] i h = absurd (omega (arith, h))
get_elem?_lt (x ∷ xs) zero h = (x, refl)
get_elem?_lt (x ∷ xs) (suc i) h = get_elem?_lt xs i (omega (arith, h))

index_eq :
    {i j : ℕ} {p q : String} → ◌≡◌ {A = Option (ℕ × String)} (some (j, p)) (some (i, q)) → j ≡ i
index_eq e = cc

module _ (now : ℕ) (pool : ProxyPool) where
  abbrev count : ℕ
  count = length pool.proxies

  -- Every proxy is benched, or the first free one round the pool is taken.
  pub data Turn : ProxyPool → Option (ℕ × String) → Type 0 where
    resting : ((i : ℕ) → i < count → is_free pool.benched_until now i ≡ false) → Turn pool none
    taken :
        (k i : ℕ) (proxy : String)
        → k < count
        → i ≡ (pool.next + k) % count
        → get_elem? pool.proxies i ≡ some proxy
        → is_free pool.benched_until now i ≡ true
        → Benched pool.benched_until now count pool.next k
        → Turn (record pool { next = (i + 1) % count }) (some (i, proxy))

  all-Benched :
      (i : ℕ)
      → Benched pool.benched_until now count pool.next count
      → (j : ℕ) × (j < count) × ((pool.next + j) % count ≡ i)
      → is_free pool.benched_until now i ≡ false
  all-Benched i h (j, lt, e) = subst (λ n. is_free pool.benched_until now n ≡ false) e (h j lt)

  in_range : {k i : ℕ} → k < count → i ≡ (pool.next + k) % count → i < count
  in_range lt e = grind arith

  picked-Turn :
      (o : Option ℕ)
      → First pool.benched_until now count pool.next count o
      → (after : ProxyPool) × (answer : Option (ℕ × String)) × (picked pool o
          ≡ some (after, answer))
        × Turn after answer
  unfolding picked
  picked-Turn none h =
      (pool, none, refl, resting λ i lt. all-Benched i h (steps_to pool.next i count lt))
  picked-Turn (some i) (k, lt, e, free, h) =
      let (proxy, there) = get_elem?_lt pool.proxies i (in_range lt e) in
      (
        record pool { next = (i + 1) % count },
        some (i, proxy),
        rw there refl,
        taken k i proxy lt e there free h,
      )

  -- `pick` never raises: it gives the first free proxy from where it stopped, round the pool, and
  -- goes on behind it next time; it gives none exactly when every proxy is benched.
  pub pick_from-Turn :
      (after : ProxyPool) × (answer : Option (ℕ × String)) × (pick_from now pool
        ≡ some (after, answer))
      × Turn after answer
  unfolding pick_from
  pick_from-Turn =
      picked-Turn (next_free pool.benched_until now count pool.next count)
        (next_free-First pool.benched_until now count pool.next count)

  pub Turn-free :
      {after : ProxyPool} {answer : Option (ℕ × String)}
      → Turn after answer
      → (i : ℕ) (proxy : String) → answer ≡ some (i, proxy)
      → is_free pool.benched_until now i ≡ true
  Turn-free (resting h) i proxy e = absurd (ground arith)
  Turn-free (taken k j p lt e there free h) i proxy q =
      subst (λ n. is_free pool.benched_until now n ≡ true) (index_eq q) free

is_free-bench :
    (policy : EgressPolicy) (t now index : ℕ) (pool : ProxyPool)
    → now < t + policy.cooldown_s
    → is_free (bench policy t index pool).benched_until now index ≡ false
unfolding is_free bench
is_free-bench policy t now index pool h = ground (
  arith,
  lookup-insert index index (t + policy.cooldown_s) pool.benched_until,
  nat_eq.same_iff index index,
)

refresh-same :
    (policy : EgressPolicy) (asked : ℕ) (reading : Option (List String)) (pool : ProxyPool)
    → (refresh policy asked reading pool).proxies ≡ pool.proxies
    → (refresh policy asked reading pool).benched_until ≡ pool.benched_until
unfolding refresh reread
refresh-same policy asked reading pool =
    elim (Bool-cases (is_recent policy asked pool.refreshed_at)) [
      | inl recent ↦ rw (refresh, recent) (λ same. refl)
      | inr old ↦ rw (refresh, old) (read reading)
    ]
  where
    read :
        (list : Option (List String))
        → (reread list (record pool { refreshed_at = some asked })).proxies ≡ pool.proxies
        → (reread list (record pool { refreshed_at = some asked })).benched_until
          ≡ pool.benched_until
    read none = λ same. refl
    read (some []) = λ same. refl
    read (some (p ∷ ps)) = elim (Bool-cases ((p ∷ ps) == pool.proxies)) [
      | inl known ↦ rw (reread, known) (λ same. refl)
      | inr new ↦
          rw (reread, new)
            (λ same. absurd (cc (new, (proxies_eq.same_iff (p ∷ ps) pool.proxies).1 same)))
    ]

Turn-proxies :
    (now : ℕ) (pool after : ProxyPool) (answer : Option (ℕ × String))
    → Turn now pool after answer
    → after.proxies ≡ pool.proxies
Turn-proxies now pool after answer (resting h) = refl
Turn-proxies now pool after answer (taken k j p lt e there free h) = refl

-- `pick` gives a benched proxy out only when its cooldown is over, or when its `refresh` has just
-- replaced the list, which clears the bench.
pub pick-bench :
    (policy : EgressPolicy) (t asked now index : ℕ) (reading : Option (List String))
    (pool : ProxyPool)
    → now < t + policy.cooldown_s
    → (after : ProxyPool) (i : ℕ) (proxy : String)
    → pick policy asked reading now (bench policy t index pool) ≡ some (after, some (i, proxy))
    → after.proxies ≡ pool.proxies
    → i ≢ index
unfolding pick bench
pick-bench policy t asked now index reading pool h after i proxy e kept same =
    let benched = bench policy t index pool in
    let fresh = refresh policy asked reading benched in
    let (after', answer, q, turn) = pick_from-Turn now fresh in
    let there : after' ≡ after = cc in
    let list : fresh.proxies ≡ benched.proxies =
      sym (Turn-proxies now fresh after' answer turn) ∙ ap (λ x. x.proxies) there ∙ kept in
    let until = refresh-same policy asked reading benched list in
    let free : is_free fresh.benched_until now i ≡ true = Turn-free now fresh turn i proxy (cc) in
    let p : is_free benched.benched_until now index ≡ true =
      ap (λ d. is_free d now index) (sym until)
      ∙ subst (λ n. is_free fresh.benched_until now n ≡ true) same free in
    absurd (cc (is_free-bench policy t now index pool h))
