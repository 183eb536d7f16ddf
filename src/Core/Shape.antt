-- ===== src/Core/Shape.antt =====
-- Every branch of the step of a vehicle records the vehicle, or leaves the state as it was.
use obehy.Prelude.{
  ◌≡◌, refl, ◌∙◌, Bool, true, false, Option, none, some, List, [], arith, ◌⊎◌, inl, inr, Bool-cases,
}
use obehy.Prelude.Raises.{>>=-eq-some}
use obehy.Prelude.Dict.{lookup}
use obehy.Model.Facts.{Observation, TripKey, LineRef, at, first, as_trip_key, as_line_ref}
use obehy.Model.Journey.{
  VehicleId, vehicle_id_eq, journey_key_eq, Reason, Binding, KeylessEpisode, BindingMethod,
}
use obehy.Model.State.{VehicleStatus, VehicleState, FeedState}
use obehy.Model.Effects.{Effect}
use obehy.Keyed.{Match, Outcome, found, refused}
use obehy.Core.Context.{Context, EngineLaws, semantics_of}
use obehy.Core.Binding.{bind, stale, continued, continued_inferred, confirm, drop_unstarted}
use obehy.Core.Journey.{open_journey}
use obehy.Core.Step.{
  repeated, unbound, prior_episode, bound_anew, keyed_anew, after_keyed, step_keyed, inferred_anew,
  after_inferred, step_keyless, without_key, step_unkeyed, step_vehicle, refusal_status,
}
use obehy.Core.Moves.{Moves, open_journey-Moves}
use obehy.Core.Recorded.{Base, Base-refl, Recorded, follow-Recorded, drop_unstarted-Base}

-- After instances were opened, the rest of the step records the vehicle.
Moves-Recorded :
    {s u t : FeedState} (o : Observation) (vehicle : VehicleId)
    → Moves s u
    → Recorded u o vehicle t
    → Recorded s o vehicle t
Moves-Recorded o vehicle m r = record {
  base = r.base;
  status = r.status;
  key = r.key;
  binding = r.binding;
  reason = r.reason;
  episode = r.episode;
  rests = record {
    vehicles = r.rests.vehicles ∙ m.vehicles;
    feed = r.rests.feed ∙ m.feed;
    kept = λ j w c d l b h. r.rests.kept j w c d (rw m.vehicles l) b (m.kept j h);
    named = λ n. r.rests.named (m.named n);
  };
  bound = r.bound;
  explained = r.explained;
  result = r.result;
}

unbound-Recorded :
    (s u t : FeedState) (o : Observation) (vehicle : VehicleId) (status : VehicleStatus)
    (key : Option TripKey) (reason : Reason) (episode : Option KeylessEpisode) (es : List Effect)
    → Base s vehicle u
    → unbound u o vehicle status key reason episode ≡ (t, es)
    → Recorded s o vehicle t
unfolding unbound
unbound-Recorded s u t o vehicle status key reason episode es b e = record {
  base = u;
  status = status;
  key = key;
  binding = none;
  reason = some reason;
  episode = episode;
  rests = b;
  bound = λ c p. cc;
  explained = refl;
  result = ground arith;
}

module _ (ctx : Context) (laws : EngineLaws ctx.engine) (o : Observation) (vehicle : VehicleId)
    (previous : Option VehicleState) (s t : FeedState) (es : List Effect) where
  bound_anew-Recorded :
      (key : Option TripKey) (episode : Option KeylessEpisode) (settle : Binding → Binding)
      (method : BindingMethod) (confirmed : Bool) (m : Match)
      → bound_anew ctx s o vehicle previous key episode settle method confirmed m ≡ some (t, es)
      → Recorded s o vehicle t
  unfolding bound_anew
  bound_anew-Recorded key episode settle method confirmed m e =
      let (opened, q, rest) = >>=-eq-some (open_journey ctx s m o) _ e in
      let (i, _, end) = >>=-eq-some (lookup m.journey opened.0.instances) _ rest in
      Moves-Recorded o vehicle (open_journey-Moves ctx s opened.0 m o opened.1 q)
        (follow-Recorded ctx laws o vehicle previous opened.0 t key episode _ _ es end)

  keyed_anew-Recorded :
      (key : TripKey) (c : Outcome)
      → keyed_anew ctx s o vehicle previous key c ≡ some (t, es)
      → Recorded s o vehicle t
  unfolding keyed_anew
  keyed_anew-Recorded key (refused r) e =
      unbound-Recorded s s t o vehicle (refusal_status r) (some key) r none es (Base-refl s vehicle)
        (ground arith)
  keyed_anew-Recorded key (found m) e = elim (Bool-cases (stale ctx m o)) [
    | inl old ↦
        let left : some (
              unbound (drop_unstarted s m.journey vehicle) o vehicle VehicleStatus.unmatched
                (some key) Reason.stale_key none)
            ≡ some (t, es) =
          rw (old, keyed_anew) at e in
        unbound-Recorded s (drop_unstarted s m.journey vehicle) t o vehicle VehicleStatus.unmatched
          (some key) Reason.stale_key none es (drop_unstarted-Base s m.journey vehicle)
          (ground arith)
    | inr new ↦
        bound_anew-Recorded (some key) none (λ b. b) BindingMethod.keyed true m
          (rw (new, keyed_anew) at e)
  ]

  after_keyed-Recorded :
      (key : TripKey) (b : Option Binding)
      → after_keyed ctx s o vehicle previous key b ≡ some (t, es)
      → Recorded s o vehicle t
  unfolding after_keyed
  after_keyed-Recorded key (some b) e =
      follow-Recorded ctx laws o vehicle previous s t (some key) none b [] es e
  after_keyed-Recorded key none e =
      let (c, _, anew) = >>=-eq-some (bind ctx o (at o)) _ e in keyed_anew-Recorded key c anew

  step_keyed-Recorded :
      (key : TripKey)
      → step_keyed ctx s o vehicle previous key ≡ some (t, es)
      → Recorded s o vehicle t
  unfolding step_keyed
  step_keyed-Recorded key e =
      let (b, _, after) = >>=-eq-some (continued ctx previous key o s) _ e in
      after_keyed-Recorded key b after

  inferred_anew-Recorded :
      (episode : KeylessEpisode) (c : Outcome)
      → inferred_anew ctx s o vehicle previous episode c ≡ some (t, es)
      → Recorded s o vehicle t
  unfolding inferred_anew
  inferred_anew-Recorded episode (refused r) e =
      unbound-Recorded s s t o vehicle (refusal_status r) none r (some episode) es
        (Base-refl s vehicle) (ground arith)
  inferred_anew-Recorded episode (found m) e =
      bound_anew-Recorded none (some episode) (λ b. confirm ctx b episode) BindingMethod.inferred
        false m e

  after_inferred-Recorded :
      (line : LineRef) (episode : KeylessEpisode) (b : Option Binding)
      → after_inferred ctx s o vehicle previous line episode b ≡ some (t, es)
      → Recorded s o vehicle t
  unfolding after_inferred
  after_inferred-Recorded line episode (some b) e =
      follow-Recorded ctx laws o vehicle previous s t none (some episode) (confirm ctx b episode) []
        es e
  after_inferred-Recorded line episode none e =
      let (c, _, anew) = >>=-eq-some (ctx.engine.infer line episode o) _ e in
      inferred_anew-Recorded episode c anew

  step_keyless-Recorded :
      (line : LineRef) (episode : KeylessEpisode)
      → step_keyless ctx s o vehicle previous line episode ≡ some (t, es)
      → Recorded s o vehicle t
  unfolding step_keyless
  step_keyless-Recorded line episode e =
      let (b, _, after) = >>=-eq-some (continued_inferred ctx previous episode (at o) s) _ e in
      after_inferred-Recorded line episode b after

  without_key-Recorded : without_key ctx s o vehicle ≡ (t, es) → Recorded s o vehicle t
  unfolding without_key
  without_key-Recorded e =
      unbound-Recorded s s t o vehicle VehicleStatus.unmatched none Reason.no_key none es
        (Base-refl s vehicle) e

  step_unkeyed-Recorded :
      step_unkeyed ctx s o vehicle previous ≡ some (t, es) → Recorded s o vehicle t
  unfolding step_unkeyed
  step_unkeyed-Recorded = on_line (first as_line_ref o) refl
    where
      on_episode :
          (line : LineRef)
          → first as_line_ref o ≡ some line
          → (x : Option KeylessEpisode)
          → ctx.engine.episode (prior_episode ctx previous) o (semantics_of ctx o) ≡ x
          → step_unkeyed ctx s o vehicle previous ≡ some (t, es)
          → Recorded s o vehicle t
      on_episode line p none q e = without_key-Recorded (ground arith)
      on_episode line p (some episode) q e =
          step_keyless-Recorded line episode (rw (step_unkeyed, p, q) at e)

      on_line :
          (x : Option LineRef)
          → first as_line_ref o ≡ x
          → step_unkeyed ctx s o vehicle previous ≡ some (t, es)
          → Recorded s o vehicle t
      on_line none p e = without_key-Recorded (ground arith)
      on_line (some line) p e =
          on_episode line p (ctx.engine.episode (prior_episode ctx previous) o (semantics_of ctx o))
            refl e

module _ (ctx : Context) (laws : EngineLaws ctx.engine) (o : Observation) (vehicle : VehicleId)
    (s t : FeedState) (es : List Effect) where
  pub step_vehicle-Recorded :
      step_vehicle ctx s o vehicle ≡ some (t, es)
      → (repeated (lookup vehicle s.vehicles) o ≡ true) × (s ≡ t) ⊎ Recorded s o vehicle t
  unfolding step_vehicle
  step_vehicle-Recorded e = elim (Bool-cases (repeated (lookup vehicle s.vehicles) o)) [
    | inl again ↦
        let same : some (s, []) ≡ some (t, es) = rw (step_vehicle, again) at e in
        inl (again, ground arith)
    | inr new ↦ inr (go (first as_trip_key o) refl (rw (step_vehicle, new) at e))
  ]
    where
      go :
          (x : Option TripKey)
          → first as_trip_key o ≡ x
          → (elim (first as_trip_key o) [
            | some key ↦ step_keyed ctx s o vehicle (lookup vehicle s.vehicles) key
            | none ↦ step_unkeyed ctx s o vehicle (lookup vehicle s.vehicles)
          ])
            ≡ some (t, es)
          → Recorded s o vehicle t
      go none p e =
          step_unkeyed-Recorded ctx laws o vehicle (lookup vehicle s.vehicles) s t es (rw p at e)
      go (some key) p e =
          step_keyed-Recorded ctx laws o vehicle (lookup vehicle s.vehicles) s t es key (rw p at e)
