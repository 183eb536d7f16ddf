-- ===== src/Keyed/Sound.antt =====
-- What keyed binding guarantees of the journey that it chooses.
use mathlib.Core.List.{Memᴰ}
use obehy.Prelude.{
  ◌≡◌, refl, sym, subst, ap, true, Option, none, some, List, [], ◌∷◌, ◌++◌, map, arith, inl, inr,
  Bool-cases, ◌⊎◌, String, Option-cases,
}
use obehy.Prelude.Lists.{All, keep_if, contains}
use obehy.Prelude.Sort.{All-sort_by}
use obehy.Prelude.Raises.{Raises, >>=-eq-some}
use obehy.Model.Facts.{Instant, Date, TripKey}
use obehy.Model.Journey.{JourneyKey, journey_key_eq}
use obehy.Index.{KeyEntry, valid_on, Trip, IndexView}
use obehy.Policy.{TimePolicy}
use obehy.Times.{Zone}
use obehy.Keyed.{
  Match, span, found, in_window, nearer, choose_first, select, Visit, skip, two_versions, add,
  Collected, ambiguous_run, matches, match_of, run_journey, visit, collect, dates, pairs, settle,
  bind,
}

-- The trip is the public one that is named, or its run on the day.
abbrev pub IsTripOf : IndexView → String → Date → Trip → Type 0
IsTripOf index id day trip = (trip ≡ index.trip id) ⊎ (trip ≡ index.run (index.trip id) day)

-- The times of the match are its trip's times on its journey's date.
abbrev pub IsTimed : Zone → IndexView → Match → Type 0
IsTimed zone index m = span zone index m.trip m.journey ≡ some (m.start_at, m.end_at)

-- The journey's date is one of the candidate dates, an entry of the key is valid on it, the trip
-- that the entry names runs that day, and the match has this trip, or its run, and its times.
pub record Runs (zone : Zone) (index : IndexView) (days : List Date) (entries : List KeyEntry)
    (m : Match) : Type 0 where
  pub dated : Memᴰ m.journey.service_date days
  pub entry : KeyEntry
  pub listed : Memᴰ entry entries
  pub valid : valid_on entry m.journey.service_date ≡ true
  pub running : index.runs_on (index.trip entry.public_id).service_id m.journey.service_date ≡ true
  pub of_entry : IsTripOf index entry.public_id m.journey.service_date m.trip
  pub timed : IsTimed zone index m

module _ (P : Match → Type 0) where
  All-append : (xs ys : List Match) → All P xs → All P ys → All P (xs ++ ys)
  All-append [] ys h k = k
  All-append (x ∷ xs) ys h k = (h.0, All-append xs ys h.1 k)

  module _ (policy : TimePolicy) (at : Instant) where
    abbrev Fit : Match → Type 0
    Fit m = P m × (in_window policy at m ≡ true)

    All-keep_if : (ms : List Match) → All P ms → All Fit (keep_if (in_window policy at) ms)
    All-keep_if [] h = tt
    All-keep_if (m ∷ ms) h = elim (Bool-cases (in_window policy at m)) [
      | inl e ↦ rw e ((h.0, e), All-keep_if ms h.1)
      | inr e ↦ rw e (All-keep_if ms h.1)
    ]

    choose_first-found :
        (m : Match) (ms : List Match) → choose_first policy at ms ≡ found m → All Fit ms → Fit m
    unfolding choose_first
    choose_first-found m [] e h = cc
    choose_first-found m (n ∷ []) e h = let same : n ≡ m = ground arith in rw same at h.0
    choose_first-found m (n ∷ o ∷ ms) e h = let same : n ≡ m = ground arith in rw same at h.0

    pub select-found :
        (m : Match) (running : List Match)
        → All P running
        → select policy at running ≡ found m
        → P m × (in_window policy at m ≡ true)
    unfolding select
    select-found m [] h e = cc
    select-found m (n ∷ ns) h e =
        choose_first-found m _ e (All-sort_by (nearer policy at) Fit _ (All-keep_if (n ∷ ns) h))

module _ (zone : Zone) (index : IndexView) (key : TripKey) where
  pub match_of-journey :
      (journey : JourneyKey) (trip : Trip) (m : Match)
      → match_of zone index journey trip ≡ some m
      → m.journey ≡ journey
  unfolding match_of
  match_of-journey journey trip m e = ground arith

  pub match_of-IsTimed :
      (journey : JourneyKey) (trip : Trip) (m : Match)
      → match_of zone index journey trip ≡ some m
      → (m.trip ≡ trip) × IsTimed zone index m
  unfolding match_of
  match_of-IsTimed journey trip m e =
      let (s, q, end) = >>=-eq-some (span zone index trip journey) _ e in
      let same : record { journey = journey; trip = trip; start_at = s.0; end_at = s.1 } ≡ m =
        ground arith in
      (ap (λ (n : Match). n.trip) (sym same), subst (IsTimed zone index) same q)

  run_journey-date :
      (run : Trip) (day : Date) (journey : JourneyKey)
      → run_journey zone index run day ≡ some journey
      → journey.service_date ≡ day
  unfolding run_journey
  run_journey-date run day journey e = ground arith

  visit-add :
      (seen seen' : List JourneyKey) (day : Date) (entry : KeyEntry) (m : Match)
      → visit zone index key seen day entry ≡ some (add seen' m)
      → (valid_on entry day ≡ true)
        × (index.runs_on (index.trip entry.public_id).service_id day ≡ true)
        × (m.journey.service_date ≡ day)
  unfolding visit
  visit-add seen seen' day entry m e = ground arith

  visit-IsTimed :
      (seen seen' : List JourneyKey) (day : Date) (entry : KeyEntry) (m : Match)
      → visit zone index key seen day entry ≡ some (add seen' m)
      → IsTripOf index entry.public_id day m.trip × IsTimed zone index m
  unfolding visit
  visit-IsTimed seen seen' day entry m e =
      elim (Option-cases (index.trip entry.public_id).run_key) [
        | inl public ↦
            let made : match_of zone index
                  (record {
                    feed = index.feed;
                    namespace = key.namespace;
                    key = key.key;
                    service_date = day;
                  })
                  (index.trip entry.public_id)
                ≡ some m =
              ground arith in
            let (trip, timed) = match_of-IsTimed _ (index.trip entry.public_id) m made in
            (inl trip, timed)
        | inr (path, run) ↦
            let (journey, made) : (journey : JourneyKey) × (match_of zone index journey
                    (index.run (index.trip entry.public_id) day)
                  ≡ some m) =
              made_by_run path run
                (run_journey zone index (index.run (index.trip entry.public_id) day) day) refl in
            let (trip, timed) = match_of-IsTimed journey _ m made in (inr trip, timed)
      ]
    where
      made_by_run :
          (path : String)
          → (index.trip entry.public_id).run_key ≡ some path
          → (x : Raises JourneyKey)
          → run_journey zone index (index.run (index.trip entry.public_id) day) day ≡ x
          → (journey : JourneyKey) × (match_of zone index journey
                (index.run (index.trip entry.public_id) day)
              ≡ some m)
      made_by_run path run none q = absurd (ground arith)
      made_by_run path run (some journey) q = elim (Bool-cases (contains journey seen)) [
        | inl before ↦ absurd (ground arith)
        | inr new ↦ (journey, ground arith)
      ]

  module _ (days : List Date) (entries : List KeyEntry) where
    abbrev Listed : Date × KeyEntry → Type 0
    Listed p = Memᴰ p.0 days × Memᴰ p.1 entries

    visit-Runs :
        (seen seen' : List JourneyKey) (day : Date) (entry : KeyEntry) (m : Match)
        → Listed (day, entry)
        → visit zone index key seen day entry ≡ some (add seen' m)
        → Runs zone index days entries m
    visit-Runs seen seen' day entry m h e =
        let (v, r, d) = visit-add seen seen' day entry m e in
        let (trip, timed) = visit-IsTimed seen seen' day entry m e in
        record {
          dated = rw d h.0;
          entry = entry;
          listed = h.1;
          valid = rw d v;
          running = rw d r;
          of_entry = rw d trip;
          timed = timed;
        }

    collect-Runs :
        (seen : List JourneyKey) (running ms : List Match) (ps : List (Date × KeyEntry))
        → All Listed ps
        → All (Runs zone index days entries) running
        → collect zone index key seen running ps ≡ some (matches ms)
        → All (Runs zone index days entries) ms
    unfolding collect
    collect-Runs seen running ms [] l h e = let same : running ≡ ms = ground arith in rw same at h
    collect-Runs seen running ms ((day, entry) ∷ ps) l h e =
        go (visit zone index key seen day entry) refl
          (λ seen' running'. collect-Runs seen' running' ms ps l.1)
      where
        go :
            (v : Raises Visit)
            → visit zone index key seen day entry ≡ v
            → ((seen' : List JourneyKey) (running' : List Match)
                → All (Runs zone index days entries) running'
                → collect zone index key seen' running' ps ≡ some (matches ms)
                → All (Runs zone index days entries) ms)
            → All (Runs zone index days entries) ms
        go none q ih = absurd (ground arith)
        go (some skip) q ih = ih seen running h (rw (q, collect) at e)
        go (some two_versions) q ih = absurd (ground arith)
        go (some (add seen' m)) q ih =
            ih seen' (running ++ m ∷ [])
              (All-append (Runs zone index days entries) running (m ∷ []) h
                (visit-Runs seen seen' day entry m l.0 q, tt))
              (rw (q, collect) at e)

All-map-pair :
    (P : Date × KeyEntry → Type 0) (d : Date) (es entries : List KeyEntry)
    → ((e : KeyEntry) → Memᴰ e entries → P (d, e))
    → ((e : KeyEntry) → Memᴰ e es → Memᴰ e entries)
    → (rest : List (Date × KeyEntry)) → All P rest
    → All P (map (λ e. (d, e)) es ++ rest)
All-map-pair P d [] entries p sub rest h = h
All-map-pair P d (e ∷ es) entries p sub rest h = (
  p e (sub e (Memᴰ.head refl)),
  All-map-pair P d es entries p (λ f m. sub f (Memᴰ.tail m)) rest h,
)

pairs-Listed :
    (days ds : List Date) (entries : List KeyEntry)
    → ((d : Date) → Memᴰ d ds → Memᴰ d days)
    → All (λ p. Memᴰ p.0 days × Memᴰ p.1 entries) (pairs ds entries)
pairs-Listed days [] entries h = tt
pairs-Listed days (d ∷ ds) entries h =
    All-map-pair (λ p. Memᴰ p.0 days × Memᴰ p.1 entries) d entries entries
      (λ e m. (h d (Memᴰ.head refl), m)) (λ e m. m) (pairs ds entries)
      (pairs-Listed days ds entries (λ f m. h f (Memᴰ.tail m)))

module _ (zone : Zone) (index : IndexView) (policy : TimePolicy) (key : TripKey) (at : Instant)
    (day : Option Date) (m : Match) where
  settle-found :
      (entries : List KeyEntry) (c : Collected)
      → collect zone index key [] [] (pairs (dates zone index at day) entries) ≡ some c
      → settle zone index policy at c ≡ found m
      → Runs zone index (dates zone index at day) entries m × (in_window policy at m ≡ true)
  unfolding settle
  settle-found entries ambiguous_run q e = cc
  settle-found entries (matches running) q e =
      let days = dates zone index at day in
      select-found (Runs zone index days entries) policy at m running
        (collect-Runs zone index key days entries [] [] running (pairs days entries)
          (pairs-Listed days days entries (λ d p. p)) tt q)
        e

  -- The journey that a key is bound to runs: an entry of the key is valid on its service date,
  -- which is a candidate date, the entry's trip runs that day, the match has this trip, or its run,
  -- and the trip's times on that date, and the observation lies in the journey's admissible
  -- window.
  pub bind-found :
      bind zone index policy key at day ≡ some (found m)
      → Runs zone index (dates zone index at day) (index.keys key.namespace key.key) m
        × (in_window policy at m ≡ true)
  unfolding bind
  bind-found = go (index.keys key.namespace key.key) refl
    where
      go :
          (entries : List KeyEntry)
          → index.keys key.namespace key.key ≡ entries
          → bind zone index policy key at day ≡ some (found m)
          → Runs zone index (dates zone index at day) entries m × (in_window policy at m ≡ true)
      go [] q e = absurd (ground arith)
      go (f ∷ fs) q e =
          let (c, collected, settled) =
            >>=-eq-some (collect zone index key [] [] (pairs (dates zone index at day) (f ∷ fs)))
              (λ c. some (settle zone index policy at c)) (rw (q, bind) at e) in
          settle-found (f ∷ fs) c collected (ground arith)
