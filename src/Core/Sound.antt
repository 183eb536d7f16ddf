-- ===== src/Core/Sound.antt =====
-- The state of a feed stays sound under `step`.
use obehy.Prelude.{
  ◌≡◌, refl, sym, ◌∙◌, subst, ap, true, false, not, ◌⊎◌, Option, none, some, List, arith, ◌==◌, inl,
  inr, Bool-cases, is_some, ==_refl, ==→eq,
}
use obehy.Prelude.Dict.{lookup, insert, has, lookup-insert}
use obehy.Model.Facts.{Instant, Position, Observation, facts_eq, at, first, as_position}
use obehy.Model.Journey.{VehicleId, vehicle_id_eq, journey_key_eq, Binding}
use obehy.Model.State.{VehicleState, FeedState}
use obehy.Model.Effects.{Effect}
use obehy.Core.Context.{Context, EngineLaws, vehicle_of}
use obehy.Core.Vehicle.{set_vehicle, float_eq, vehicle_state, fix}
use obehy.Core.Binding.{bound_to}
use obehy.Core.Step.{step_vehicle, feed_eq}
use obehy.Core.Observe.{step, step_bare}
use obehy.Core.Moves.{IsNamed, Moves}
use obehy.Core.Recorded.{Recorded}
use obehy.Core.Shape.{step_vehicle-Recorded}
use obehy.Core.Bare.{step_bare-Moves}

-- The journey that a vehicle is bound to has an instance; each instance stands under its own
-- journey; a vehicle stands under its own id, has a position exactly when it has the time of one,
-- and has a reason exactly when it is not bound.
pub record IsSound (s : FeedState) : Type 0 where
  pub named : IsNamed s
  pub live :
      (w : VehicleId) (c : VehicleState) (b : Binding)
      → lookup w s.vehicles ≡ some c
      → c.binding ≡ some b
      → has b.journey s.instances ≡ true
  pub fixed :
      (w : VehicleId) (c : VehicleState)
      → lookup w s.vehicles ≡ some c
      → is_some c.position ≡ is_some c.position_at
  pub explained :
      (w : VehicleId) (c : VehicleState)
      → lookup w s.vehicles ≡ some c
      → is_some c.binding ≡ not (is_some c.reason)
  pub own : (w : VehicleId) (c : VehicleState) → lookup w s.vehicles ≡ some c → c.vehicle ≡ w

-- What a step does: it has no vehicle and moves instances, or it is the step of its vehicle.
pub step-cases :
    (ctx : Context) (s t : FeedState) (o : Observation) (es : List Effect)
    → step ctx s o ≡ some (t, es)
    → (vehicle_of o ≡ none) × (step_bare ctx s o ≡ some (t, es))
      ⊎ (v : VehicleId) × (vehicle_of o ≡ some v) × (step_vehicle ctx s o v ≡ some (t, es))
unfolding step
step-cases ctx s t o es = go (vehicle_of o) refl
  where
    go :
        (v : Option VehicleId)
        → vehicle_of o ≡ v
        → step ctx s o ≡ some (t, es)
        → (vehicle_of o ≡ none) × (step_bare ctx s o ≡ some (t, es))
          ⊎ (v : VehicleId) × (vehicle_of o ≡ some v) × (step_vehicle ctx s o v ≡ some (t, es))
    go none q e = inl (q, ground arith)
    go (some v) q e = inr (v, q, ground arith)

fix-paired :
    (c : Option VehicleState) (p : Option Position) (now : Instant)
    → is_some (fix c p now).0 ≡ is_some (fix c p now).1
unfolding fix
fix-paired c p now = ground arith

pub bound_to-binding :
    (b : Binding) (c : VehicleState) → c.binding ≡ some b → bound_to b.journey c ≡ true
unfolding bound_to
bound_to-binding b c e = rw e (==_refl b.journey)

module _ (o : Observation) (vehicle : VehicleId) (s t : FeedState)
    (r : Recorded s o vehicle t) where
  abbrev pub new_state : VehicleState
  new_state = vehicle_state r.base o vehicle r.status r.key r.binding r.reason r.episode

  pub recorded_vehicles : t.vehicles ≡ insert vehicle new_state s.vehicles
  unfolding set_vehicle
  recorded_vehicles =
      sym (ap (λ (x : FeedState). x.vehicles) r.result)
      ∙ ap (insert vehicle new_state) r.rests.vehicles

  recorded_instances : t.instances ≡ r.base.instances
  unfolding set_vehicle
  recorded_instances = sym (ap (λ (x : FeedState). x.instances) r.result)

  -- What is recorded of a vehicle after a step of `vehicle`: the new state, or what was there.
  recorded_cases :
      (w : VehicleId) (c : VehicleState)
      → lookup w t.vehicles ≡ some c
      → (vehicle ≡ w) × (new_state ≡ c) ⊎ ((vehicle == w) ≡ false) × (lookup w s.vehicles ≡ some c)
  recorded_cases w c l =
      let m : lookup w (insert vehicle new_state s.vehicles) ≡ some c = rw recorded_vehicles at l in
      elim (Bool-cases (vehicle == w)) [
        | inl same ↦
            let n : some new_state ≡ some c =
              rw (lookup-insert vehicle w new_state s.vehicles, same) at m in
            inl (==→eq vehicle w same, cc)
        | inr other ↦ inr (other, rw (lookup-insert vehicle w new_state s.vehicles, other) at m)
      ]

  recorded_binding : new_state.binding ≡ r.binding
  unfolding vehicle_state
  recorded_binding = refl

  recorded_reason : is_some new_state.binding ≡ not (is_some new_state.reason)
  unfolding vehicle_state
  recorded_reason = r.explained

  recorded_own : new_state.vehicle ≡ vehicle
  unfolding vehicle_state
  recorded_own = refl

  pub recorded_fix :
      (new_state.position ≡ (fix (lookup vehicle r.base.vehicles) (first as_position o) (at o)).0)
      × (new_state.position_at
          ≡ (fix (lookup vehicle r.base.vehicles) (first as_position o) (at o)).1)
  unfolding vehicle_state
  recorded_fix = (refl, refl)

  pub recorded_feed : t.feed ≡ s.feed
  unfolding set_vehicle
  recorded_feed = sym (ap (λ (x : FeedState). x.feed) r.result) ∙ r.rests.feed

  IsSound-Recorded : IsSound s → IsSound t
  IsSound-Recorded h = record {
    named = record {
      at_key = λ j i l. (r.rests.named h.named).at_key j i (rw recorded_instances at l);
    };
    live = λ w c b l e. elim (recorded_cases w c l) [
      | inl (_, new) ↦
          let p : r.binding ≡ some b =
            sym recorded_binding ∙ ap (λ (x : VehicleState). x.binding) new ∙ e in
          rw recorded_instances (r.bound b p)
      | inr (other, old) ↦ rw recorded_instances (
          r.rests.kept b.journey w c
            (ground (arith, vehicle_id_eq.same_iff vehicle w, vehicle_id_eq.same_iff w vehicle)) old
            (bound_to-binding b c e) (h.live w c b old e))
    ];
    fixed = λ w c l. elim (recorded_cases w c l) [
      | inl (_, new) ↦
          subst (λ (x : VehicleState). is_some x.position ≡ is_some x.position_at) new
            (rw (recorded_fix.0, recorded_fix.1)
              (fix-paired (lookup vehicle r.base.vehicles) (first as_position o) (at o)))
      | inr (_, old) ↦ h.fixed w c old
    ];
    explained = λ w c l. elim (recorded_cases w c l) [
      | inl (_, new) ↦
          subst (λ (x : VehicleState). is_some x.binding ≡ not (is_some x.reason)) new
            recorded_reason
      | inr (_, old) ↦ h.explained w c old
    ];
    own = λ w c l. elim (recorded_cases w c l) [
      | inl (same, new) ↦ subst (λ (x : VehicleState). x.vehicle ≡ w) new (recorded_own ∙ same)
      | inr (_, old) ↦ h.own w c old
    ];
  }

Moves-IsSound : {s t : FeedState} → Moves s t → IsSound s → IsSound t
Moves-IsSound m h = record {
  named = m.named h.named;
  live = λ w c b l e. m.kept b.journey (h.live w c b (rw m.vehicles at l) e);
  fixed = λ w c l. h.fixed w c (rw m.vehicles at l);
  explained = λ w c l. h.explained w c (rw m.vehicles at l);
  own = λ w c l. h.own w c (rw m.vehicles at l);
}

module _ (ctx : Context) (s t : FeedState) (o : Observation) (es : List Effect) where
  -- `step` keeps the state sound, on each of its branches: the journey that a vehicle is bound to
  -- has an instance, each instance stands under its own journey, each vehicle under its own id,
  -- and a vehicle has a position exactly when it has the time of one, and a reason exactly when it
  -- is not bound. The timeline engine must not change which journey an instance is.
  pub step-IsSound : EngineLaws ctx.engine → IsSound s → step ctx s o ≡ some (t, es) → IsSound t
  step-IsSound laws h e = elim (step-cases ctx s t o es e) [
    | inl (_, bare) ↦ Moves-IsSound (step_bare-Moves ctx o s t es bare) h
    | inr (v, _, moved) ↦ elim (step_vehicle-Recorded ctx laws o v s t es moved) [
      | inl (_, same) ↦ subst IsSound same h
      | inr r ↦ IsSound-Recorded o v s t r h
    ]
  ]
