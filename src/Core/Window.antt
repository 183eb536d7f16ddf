-- ===== src/Core/Window.antt =====
-- A vehicle with a trip key is bound only to a journey that is running about now.
use obehy.Prelude.{
  ◌≡◌, refl, subst, String, true, none, some, List, [], ◌∷◌, arith, string_eq, nat_eq, inl, inr,
  Bool-cases,
}
use obehy.Prelude.Raises.{Raises, >>=-eq-some}
use obehy.Model.Facts.{Instant, Observation, TripKey, all, as_trip_key, first, as_service_day}
use obehy.Model.Journey.{vehicle_id_eq, journey_key_eq}
use obehy.Keyed.{Match, Outcome, found, refused, in_window, span}
use obehy.Keyed.Sound.{IsTripOf, IsTimed, bind-found}
use obehy.Core.Context.{Context}
use obehy.Core.Binding.{
  bind_key, bind_further, bind_any, rename, identified, bind, same_trip, is_identity,
}

-- The match admits the time of the observation.
abbrev Admits : Context → Instant → Match → Type 0
Admits ctx when m = in_window ctx.policy.time when m ≡ true

-- The match has the times of its trip, which is of the index: a public trip or its run that day.
unfoldable pub IsPlaced : Context → Match → Type 0
IsPlaced ctx m =
    IsTimed ctx.zone ctx.index m
    × (id : String) × IsTripOf ctx.index id m.journey.service_date m.trip

-- What holds of the journey that a key names, and goes on to hold when it is renamed, holds of
-- the journey that the observation's keys name.
module _ (ctx : Context) (o : Observation) (when : Instant) (P : Match → Type 0)
    (keyed : (key : TripKey) (m : Match) → bind_key ctx o when key ≡ some (found m) → P m)
    (renamed : (k m : Match)
      → k.journey.service_date ≡ m.journey.service_date
      → P m
      → P (record m { journey = k.journey })) where
  bind_further-holds :
      (keys : List TripKey) (m : Match) → bind_further ctx o when keys ≡ some (found m) → P m
  unfolding bind_further
  bind_further-holds [] m e = absurd (ground arith)
  bind_further-holds (key ∷ keys) m e =
      go (bind_key ctx o when key) refl (bind_further-holds keys m)
    where
      go :
          (x : Raises Outcome)
          → bind_key ctx o when key ≡ x
          → (bind_further ctx o when keys ≡ some (found m) → P m)
          → P m
      go none q ih = absurd (ground arith)
      go (some (found n)) q ih = let same : n ≡ m = ground arith in keyed key m (rw same at q)
      go (some (refused r)) q ih = ih (ground arith)

  bind_any-holds :
      (keys : List TripKey) (m : Match) → bind_any ctx o when keys ≡ some (found m) → P m
  unfolding bind_any
  bind_any-holds [] m e = absurd (ground arith)
  bind_any-holds (key ∷ keys) m e = go (bind_key ctx o when key) refl
    where
      go : (x : Raises Outcome) → bind_key ctx o when key ≡ x → P m
      go none q = absurd (ground arith)
      go (some (found n)) q = let same : n ≡ m = ground arith in keyed key m (rw same at q)
      go (some (refused r)) q = bind_further-holds keys m (ground arith)

  rename-holds : (m n : Match) (keys : List TripKey) → rename ctx o when m keys ≡ some n → P m → P n
  unfolding rename in_window
  rename-holds m n [] e h = let same : m ≡ n = ground arith in subst P same h
  rename-holds m n (key ∷ keys) e h = go (bind_key ctx o when key) refl (rename-holds m n keys)
    where
      go :
          (x : Raises Outcome)
          → bind_key ctx o when key ≡ x
          → (rename ctx o when m keys ≡ some n → P m → P n)
          → P n
      go none q ih = elim (Bool-cases (is_identity key.namespace)) [
        | inr other ↦ ih (ground arith) h
        | inl identity ↦ absurd (ground arith)
      ]
      go (some (refused r)) q ih = ih (ground arith) h
      go (some (found k)) q ih = elim (Bool-cases (is_identity key.namespace)) [
        | inr other ↦ ih (ground arith) h
        | inl identity ↦ elim (Bool-cases (same_trip ctx k m)) [
          | inr apart ↦ ih (ground arith) h
          | inl same ↦
              let moved : record m { journey = k.journey } ≡ n = ground arith in
              let day : k.journey.service_date ≡ m.journey.service_date =
                ground
                  (arith, same, nat_eq.same_iff k.journey.service_date m.journey.service_date) in
              subst P moved (renamed k m day h)
        ]
      ]

  bind-holds : (m : Match) → bind ctx o when ≡ some (found m) → P m
  unfolding bind identified
  bind-holds m e =
      let (c, q, rest) = >>=-eq-some (bind_any ctx o when (all as_trip_key o)) _ e in go c q rest
    where
      go :
          (c : Outcome)
          → bind_any ctx o when (all as_trip_key o) ≡ some c
          → identified ctx o when c ≡ some (found m)
          → P m
      go (refused r) q e = absurd (ground arith)
      go (found k) q e = elim (Bool-cases (is_identity k.journey.namespace)) [
        | inl identity ↦
            let same : k ≡ m = ground arith in subst P same (bind_any-holds (all as_trip_key o) k q)
        | inr other ↦
            let (n, r, end) =
              >>=-eq-some (rename ctx o when k (all as_trip_key o)) _
                (rw (other, identified) at e) in
            let same : n ≡ m = ground arith in
            subst P same
              (rename-holds k n (all as_trip_key o) r (bind_any-holds (all as_trip_key o) k q))
      ]

module _ (ctx : Context) (o : Observation) (when : Instant) where
  -- The journey that an observation's keys name admits its time.
  pub bind-Admits : (m : Match) → bind ctx o when ≡ some (found m) → Admits ctx when m
  unfolding bind_key in_window
  bind-Admits =
      bind-holds ctx o when (Admits ctx when)
        (λ key m e.
          (bind-found ctx.zone ctx.index ctx.policy.time key when (first as_service_day o) m e).1)
        (λ k m day h. h)

  pub bind-IsPlaced : (m : Match) → bind ctx o when ≡ some (found m) → IsPlaced ctx m
  unfolding bind_key IsPlaced span
  bind-IsPlaced =
      bind-holds ctx o when (IsPlaced ctx)
        (λ key m e.
          let (runs, _) =
            bind-found ctx.zone ctx.index ctx.policy.time key when (first as_service_day o) m e in
          (runs.timed, runs.entry.public_id, runs.of_entry))
        (λ k m day h. rw day h)
