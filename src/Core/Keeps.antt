-- ===== src/Core/Keeps.antt =====
-- The upkeep of a feed's state and its move onto a new release keep it sound.
use obehy.Prelude.{
  ◌≡◌, refl, sym, ◌∙◌, subst, ap, Bool, true, false, not, ◌&&◌, Option, none, some, List, [], ◌∷◌,
  arith, ◌==◌, inl, inr, Bool-cases, is_some, ◌||◌,
}
use obehy.Prelude.Lists.{any, contains}
use obehy.Prelude.Dict.{
  Dict, lookup, has, filter_map, lookup-filter_map_cases, lookup-filter_map_kept,
}
use obehy.Model.Facts.{Instant}
use obehy.Model.Journey.{
  VehicleId, vehicle_id_eq, JourneyKey, journey_key_eq, Instance, Lifecycle, WriteEvent,
}
use obehy.Model.State.{VehicleState, FeedState}
use obehy.Core.Context.{Context, EngineLaws}
use obehy.Core.Binding.{bound_to, lifecycle_eq}
use obehy.Core.Upkeep.{
  is_bound, unconfirmed, keep_seen, arrived_unseen, arrival_at, flagged, refreshed,
  refreshed_instance, refresh, with_flags, or_arrived, behind, reestimated, estimate_all,
}
use obehy.Core.Moves.{IsNamed}
use obehy.Core.Sound.{IsSound, bound_to-binding}

is_bound-lookup :
    (j : JourneyKey) (w : VehicleId) (c : VehicleState) (vs : Dict VehicleId VehicleState)
    → lookup w vs ≡ some c
    → bound_to j c ≡ true
    → is_bound j vs ≡ true
unfolding is_bound any lookup
is_bound-lookup j w c [] l b = cc
is_bound-lookup j w c ((u, e) ∷ vs) l b =
    ground (arith, vehicle_id_eq.same_iff u w, is_bound-lookup j w c vs)

-- Instances that `f` changes stay under their journeys if `f` keeps the journey of each.
pub IsNamed-filter_map :
    (f : JourneyKey → Instance → Option Instance) (s t : FeedState)
    → t.instances ≡ filter_map f s.instances
    → ((j : JourneyKey) (i k : Instance) → f j i ≡ some k → k.journey ≡ i.journey)
    → IsNamed s
    → IsNamed t
IsNamed-filter_map f s t e keeps n = record {
  at_key = λ j k l.
      let (i, there, changed) = lookup-filter_map_cases f j s.instances k (rw e at l) in
      keeps j i k changed ∙ n.at_key j i there;
}

-- A key of which `f` drops no value stays.
has-filter_map :
    (f : JourneyKey → Instance → Option Instance) (j : JourneyKey) (m : Dict JourneyKey Instance)
    → has j m ≡ true
    → ((i : Instance) → (k : Instance) × (f j i ≡ some k))
    → has j (filter_map f m) ≡ true
has-filter_map f j m h kept = go (lookup j m) refl
  where
    go : (x : Option Instance) → lookup j m ≡ x → has j (filter_map f m) ≡ true
    go none q = absurd (let p : false ≡ true = rw q at h in cc)
    go (some i) q = rw (lookup-filter_map_kept f j m i (kept i).0 q (kept i).1) refl

module _ (ctx : Context) (now : Instant) where
  journey-arrived_unseen :
      (i k : Instance) (event : WriteEvent)
      → arrived_unseen ctx now i ≡ some (k, event)
      → k.journey ≡ i.journey
  unfolding arrived_unseen arrival_at
  journey-arrived_unseen i k event e = ground arith

  journey-or_arrived :
      (i k : Instance)
      → k.journey ≡ i.journey
      → (or_arrived ctx now k (arrived_unseen ctx now k)).0.journey ≡ i.journey
  unfolding or_arrived
  journey-or_arrived i k e = go (arrived_unseen ctx now k) refl
    where
      go :
          (x : Option (Instance × WriteEvent))
          → arrived_unseen ctx now k ≡ x
          → (or_arrived ctx now k x).0.journey ≡ i.journey
      go none q = e
      go (some (a, event)) q = journey-arrived_unseen k a event q ∙ e

  journey-flagged : (held : Bool) (i : Instance) → (flagged ctx now held i).0.journey ≡ i.journey
  unfolding flagged with_flags
  journey-flagged held i = ground (arith, journey-or_arrived i (with_flags ctx now i) refl)

  -- A vehicle that is kept is unchanged.
  keep_seen-eq : (w : VehicleId) (c d : VehicleState) → keep_seen ctx now w c ≡ some d → c ≡ d
  unfolding keep_seen
  keep_seen-eq w c d e = ground arith

  -- An instance that a vehicle is bound to is not forgotten.
  refreshed-bound :
      (vs : Dict VehicleId VehicleState) (j : JourneyKey) (i : Instance)
      → is_bound j vs ≡ true
      → refreshed ctx now vs j i ≡ some (flagged ctx now (unconfirmed j vs) i)
  unfolding refreshed
  refreshed-bound vs j i b = ground arith

  refreshed_instance-bound :
      (vs : Dict VehicleId VehicleState) (j : JourneyKey) (i : Instance)
      → is_bound j vs ≡ true
      → refreshed_instance ctx now vs j i ≡ some (flagged ctx now (unconfirmed j vs) i).0
  unfolding refreshed_instance
  refreshed_instance-bound vs j i b = rw (refreshed_instance, refreshed-bound vs j i b) refl

  journey-refreshed :
      (vs : Dict VehicleId VehicleState) (j : JourneyKey) (i k : Instance)
      → refreshed_instance ctx now vs j i ≡ some k
      → k.journey ≡ i.journey
  unfolding refreshed_instance refreshed
  journey-refreshed vs j i k e =
      let same : (flagged ctx now (unconfirmed j vs) i).0 ≡ k = ground arith in
      ap (λ (x : Instance). x.journey) (sym same) ∙ journey-flagged (unconfirmed j vs) i

  -- `refresh` keeps the state sound: it forgets no journey that a vehicle it keeps is bound to.
  pub refresh-IsSound : (s : FeedState) → IsSound s → IsSound (refresh ctx now s).0
  unfolding refresh refreshed_instance
  refresh-IsSound s h = record {
    named =
        IsNamed-filter_map (refreshed_instance ctx now (filter_map (keep_seen ctx now) s.vehicles))
          s (refresh ctx now s).0 refl
          (journey-refreshed (filter_map (keep_seen ctx now) s.vehicles)) h.named;
    live = λ w c b l e.
        let (d, there, kept) = lookup-filter_map_cases (keep_seen ctx now) w s.vehicles c l in
        let same : d ≡ c = keep_seen-eq w d c kept in
        let vs = filter_map (keep_seen ctx now) s.vehicles in
        let old = h.live w d b there (rw same e) in
        let held = is_bound-lookup b.journey w c vs l (bound_to-binding b c e) in
        has-filter_map (refreshed_instance ctx now vs) b.journey s.instances old
          (λ i. (_, refreshed_instance-bound vs b.journey i held));
    fixed = λ w c l.
        let (d, there, kept) = lookup-filter_map_cases (keep_seen ctx now) w s.vehicles c l in
        subst (λ (x : VehicleState). is_some x.position ≡ is_some x.position_at)
          (keep_seen-eq w d c kept) (h.fixed w d there);
    explained = λ w c l.
        let (d, there, kept) = lookup-filter_map_cases (keep_seen ctx now) w s.vehicles c l in
        subst (λ (x : VehicleState). is_some x.binding ≡ not (is_some x.reason))
          (keep_seen-eq w d c kept) (h.explained w d there);
    own = λ w c l.
        let (d, there, kept) = lookup-filter_map_cases (keep_seen ctx now) w s.vehicles c l in
        subst (λ (x : VehicleState). x.vehicle ≡ w) (keep_seen-eq w d c kept) (h.own w d there);
  }

  reestimated-some :
      (dirty : List JourneyKey) (j : JourneyKey) (i : Instance)
      → (k : Instance) × (reestimated ctx now dirty j i ≡ some k)
  unfolding reestimated
  reestimated-some dirty j i =
      elim (Bool-cases
        ((contains j dirty || behind ctx now i) && not (i.lifecycle == Lifecycle.cancelled))) [
          | inl again ↦ (ctx.engine.estimate i (ctx.index.trip i.trip_id) now, rw again refl)
          | inr old ↦ (i, rw old refl)
        ]

  journey-reestimated :
      EngineLaws ctx.engine
      → (dirty : List JourneyKey) (j : JourneyKey) (i k : Instance)
      → reestimated ctx now dirty j i ≡ some k
      → k.journey ≡ i.journey
  unfolding reestimated
  journey-reestimated laws dirty j i k e =
      ground (arith, laws.estimate_keeps_journey i (ctx.index.trip i.trip_id) now)

  -- `estimate_all` keeps the state sound, whatever the estimates are.
  pub estimate_all-IsSound :
      (s : FeedState) → EngineLaws ctx.engine → IsSound s → IsSound (estimate_all ctx now s)
  unfolding estimate_all
  estimate_all-IsSound s laws h = record {
    named =
        IsNamed-filter_map (reestimated ctx now s.dirty) s (estimate_all ctx now s) refl
          (journey-reestimated laws s.dirty) h.named;
    live = λ w c b l e.
        has-filter_map (reestimated ctx now s.dirty) b.journey s.instances (h.live w c b l e)
          (λ i. reestimated-some s.dirty b.journey i);
    fixed = h.fixed;
    explained = h.explained;
    own = h.own;
  }
