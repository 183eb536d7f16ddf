-- ===== src/Core/Recorded.antt =====
-- What a step of a vehicle leaves: the state of before, or one in which this vehicle alone is
-- recorded anew, on instances that keep what the other vehicles are bound to.
use obehy.Prelude.{
  ◌≡◌, refl, subst, true, false, not, ◌&&◌, Option, none, some, List, [], ◌∷◌, arith, ◌==◌, inl,
  inr, Bool-cases, is_some,
}
use obehy.Prelude.Lists.{any}
use obehy.Prelude.Raises.{>>=-eq-some}
use obehy.Prelude.Dict.{Dict, lookup, remove, has, lookup-remove, lookup-remove_cases}
use obehy.Model.Facts.{Observation, TripKey}
use obehy.Model.Journey.{
  VehicleId, vehicle_id_eq, JourneyKey, journey_key_eq, Reason, Binding, KeylessEpisode, Instance,
}
use obehy.Model.State.{VehicleStatus, VehicleState, FeedState}
use obehy.Model.Effects.{Effect}
use obehy.Core.Context.{Context, EngineLaws}
use obehy.Core.Vehicle.{set_vehicle}
use obehy.Core.Binding.{bound_to, others_bound, drop_unstarted, never_started}
use obehy.Core.Follow.{follow, moved_by, status_of}
use obehy.Core.Moves.{IsNamed, Moves, moved_by-Moves}

-- The instances that a step leaves keep every journey that another vehicle is bound to.
pub record Base (s : FeedState) (vehicle : VehicleId) (t : FeedState) : Type 0 where
  pub vehicles : t.vehicles ≡ s.vehicles
  pub feed : t.feed ≡ s.feed
  pub kept :
      (j : JourneyKey) (w : VehicleId) (c : VehicleState)
      → (w == vehicle) ≡ false
      → lookup w s.vehicles ≡ some c
      → bound_to j c ≡ true
      → has j s.instances ≡ true
      → has j t.instances ≡ true
  pub named : IsNamed s → IsNamed t

pub record Recorded (s : FeedState) (o : Observation) (vehicle : VehicleId) (t : FeedState)
    : Type 0 where
  pub base : FeedState
  pub status : VehicleStatus
  pub key : Option TripKey
  pub binding : Option Binding
  pub reason : Option Reason
  pub episode : Option KeylessEpisode
  pub rests : Base s vehicle base
  pub bound : (b : Binding) → binding ≡ some b → has b.journey base.instances ≡ true
  pub explained : is_some binding ≡ not (is_some reason)
  pub result : set_vehicle base o vehicle status key binding reason episode ≡ t

pub Base-refl : (s : FeedState) (vehicle : VehicleId) → Base s vehicle s
Base-refl s vehicle = record {
  vehicles = refl;
  feed = refl;
  kept = λ j w c d l b h. h;
  named = λ n. n;
}

Moves-Base : {s t : FeedState} (vehicle : VehicleId) → Moves s t → Base s vehicle t
Moves-Base vehicle m = record {
  vehicles = m.vehicles;
  feed = m.feed;
  kept = λ j w c d l b h. m.kept j h;
  named = m.named;
}

-- A vehicle that is bound to the journey is one of the others.
others_bound-lookup :
    (j : JourneyKey) (v w : VehicleId) (c : VehicleState) (vs : Dict VehicleId VehicleState)
    → (w == v) ≡ false
    → lookup w vs ≡ some c
    → bound_to j c ≡ true
    → others_bound j v vs ≡ true
unfolding others_bound any lookup
others_bound-lookup j v w c [] d l b = cc
others_bound-lookup j v w c ((u, e) ∷ vs) d l b =
    ground (arith, vehicle_id_eq.same_iff u w, others_bound-lookup j v w c vs d)

has-remove_other :
    (j k : JourneyKey) (m : Dict JourneyKey Instance)
    → (k == j) ≡ false
    → has j m ≡ true
    → has j (remove k m) ≡ true
has-remove_other j k m d h = rw (lookup-remove k j m, d) h

-- A journey is dropped only where no other vehicle is bound to it.
pub drop_unstarted-Base :
    (s : FeedState) (j : JourneyKey) (vehicle : VehicleId)
    → Base s vehicle (drop_unstarted s j vehicle)
unfolding drop_unstarted
drop_unstarted-Base s j vehicle = go (lookup j s.instances) refl
  where
    go :
        (i : Option Instance)
        → lookup j s.instances ≡ i
        → Base s vehicle (drop_unstarted s j vehicle)
    go none q = rw (drop_unstarted, q) (Base-refl s vehicle)
    go (some i) q = elim (Bool-cases (never_started i && not (others_bound j vehicle s.vehicles))) [
      | inr stays ↦ rw (drop_unstarted, q, stays) (Base-refl s vehicle)
      | inl drops ↦
          rw (drop_unstarted, q, drops)
            (record {
              vehicles = refl;
              feed = refl;
              kept = λ k w c d l b h. elim (Bool-cases (j == k)) [
                | inr other ↦ has-remove_other k j s.instances other h
                | inl same ↦
                    let others = others_bound-lookup k vehicle w c s.vehicles d l b in
                    absurd (ground (arith, journey_key_eq.same_iff j k))
              ];
              named = λ n. record {
                at_key = λ k i p. n.at_key k i (lookup-remove_cases j k i s.instances p).1;
              };
            })
    ]

module _ (ctx : Context) (laws : EngineLaws ctx.engine) (o : Observation) (vehicle : VehicleId)
    (previous : Option VehicleState) where
  -- A bound vehicle moves its journey and is recorded with it.
  pub follow-Recorded :
      (s t : FeedState) (key : Option TripKey) (episode : Option KeylessEpisode) (b : Binding)
      (fs es : List Effect)
      → follow ctx s o vehicle previous key episode b fs ≡ some (t, es)
      → Recorded s o vehicle t
  unfolding follow
  follow-Recorded s t key episode b fs es e =
      let (i, found, moves) = >>=-eq-some (lookup b.journey s.instances) _ e in
      let (moved, q, end) =
        >>=-eq-some (moved_by ctx s o vehicle previous b (ctx.index.trip b.trip_id) i) _ moves in
      let there : set_vehicle moved.0 o vehicle (status_of moved.1.lifecycle) key (some b) none
            episode
          ≡ t =
        ground arith in
      let m =
        moved_by-Moves ctx laws s o b (ctx.index.trip b.trip_id) vehicle previous i moved.1 moved.0
          moved.2 (λ n. n.at_key b.journey i found) q in
      record {
        base = moved.0;
        status = status_of moved.1.lifecycle;
        key = key;
        binding = some b;
        reason = none;
        episode = episode;
        rests = Moves-Base vehicle m;
        bound = λ c p.
            let same : b ≡ c = ground arith in
            subst (λ d. has d.journey moved.0.instances ≡ true) same
              (m.kept b.journey (rw found refl));
        explained = refl;
        result = there;
      }
