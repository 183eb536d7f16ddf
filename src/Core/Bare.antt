-- ===== src/Core/Bare.antt =====
-- The steps without a vehicle, cancellations and station board rows, move instances only.
use obehy.Prelude.{
  ℕ, ◌≡◌, refl, subst, Bool, true, false, ◌&&◌, Option, none, some, List, arith, is_some, inl, inr,
  Bool-cases,
}
use obehy.Prelude.Lists.{get_elem?}
use obehy.Prelude.Raises.{>>=-eq-some}
use obehy.Prelude.Dict.{lookup, insert}
use obehy.Model.Facts.{
  Observation, PlatformAssignment, at, first, as_platform_assignment, as_trip_cancelled,
}
use obehy.Model.Journey.{JourneyKey, journey_key_eq, Instance, public}
use obehy.Model.State.{FeedState, add_dirty}
use obehy.Model.Effects.{Effect}
use obehy.Runs.{public_call}
use obehy.Keyed.{Match, Outcome, found, refused}
use obehy.Platforms.{
  platform_outcome, apply_platform, assign_platform, assign_call, with_platform, unplaced,
  call_from,
}
use obehy.Core.Context.{Context}
use obehy.Core.Binding.{bind}
use obehy.Core.Journey.{open_journey}
use obehy.Core.Cancel.{
  cancel, cancel_match, cancel_outcome, cancelled_instance, waits_to_run, single,
}
use obehy.Core.Observe.{step_bare, step_rest}
use obehy.Core.Moves.{Moves, Moves-refl, Moves-trans, insert-Moves, open_journey-Moves}

module _ (ctx : Context) (o : Observation) (s t : FeedState) (es : List Effect) where
  cancel_match-Moves : (m : Match) → cancel_match ctx s o m ≡ some (t, es) → Moves s t
  unfolding cancel_match cancelled_instance
  cancel_match-Moves m e =
      let (opened, q, rest) = >>=-eq-some (open_journey ctx s m o) _ e in
      let (i, there_i, end) = >>=-eq-some (lookup m.journey opened.0.instances) _ rest in
      let moved = open_journey-Moves ctx s opened.0 m o opened.1 q in
      let i' = cancelled_instance ctx i o in
      let u : FeedState = record opened.0 {
        instances = insert m.journey i' opened.0.instances;
        dirty = add_dirty m.journey opened.0.dirty;
      } in
      elim (Bool-cases (waits_to_run ctx i.lifecycle && single ctx (public i))) [
        | inl cancels ↦
            let there : u ≡ t = ground (arith, cancels, end) in
            subst (Moves s) there (
              Moves-trans moved (
                insert-Moves opened.0 u m.journey i' refl refl refl
                  (λ n. n.at_key m.journey i there_i)))
        | inr stays ↦
            let there : opened.0 ≡ t = ground (arith, stays, end) in subst (Moves s) there moved
      ]

  cancel-Moves : cancel ctx s o ≡ some (t, es) → Moves s t
  unfolding cancel cancel_outcome
  cancel-Moves e = let (c, _, rest) = >>=-eq-some (bind ctx o (at o)) _ e in go c rest
    where
      go : (c : Outcome) → cancel_outcome ctx s o c ≡ some (t, es) → Moves s t
      go (refused r) e = let there : s ≡ t = ground arith in subst (Moves s) there (Moves-refl s)
      go (found m) e = cancel_match-Moves m e

module _ (ctx : Context) (o : Observation) (fact : PlatformAssignment) (s t : FeedState)
    (es : List Effect) where
  assign_call-Moves :
      (j : JourneyKey) (i : Instance) (fs : List Effect) (n : ℕ)
      → lookup j s.instances ≡ some i
      → assign_call ctx.zone ctx.index s o fact j i fs n ≡ some (t, es)
      → Moves s t
  unfolding assign_call with_platform
  assign_call-Moves j i fs n at_j e =
      let (call, q, rest) = >>=-eq-some (get_elem? i.calls n) _ e in
      let (place, r, end) = >>=-eq-some (public_call i n fact.kind) _ rest in
      let i' = with_platform ctx.zone ctx.index i o fact n call in
      let u : FeedState = record s {
        instances = insert j i' s.instances;
        dirty = add_dirty j s.dirty;
      } in
      let there : u ≡ t = ground (arith, end) in
      subst (Moves s) there (insert-Moves s u j i' refl refl refl (λ n. n.at_key j i at_j))

  assign_platform-Moves :
      (m : Match) (i : Instance) (fs : List Effect)
      → lookup m.journey s.instances ≡ some i
      → assign_platform ctx.zone ctx.index s o fact m i fs ≡ some (t, es)
      → Moves s t
  unfolding assign_platform unplaced
  assign_platform-Moves m i fs at_j =
      go (call_from ctx.zone ctx.index m.journey.service_date fact 0 m.trip.calls) refl
    where
      go :
          (c : Option ℕ)
          → call_from ctx.zone ctx.index m.journey.service_date fact 0 m.trip.calls ≡ c
          → assign_platform ctx.zone ctx.index s o fact m i fs ≡ some (t, es)
          → Moves s t
      go none q e = let there : s ≡ t = ground arith in subst (Moves s) there (Moves-refl s)
      go (some n) q e = assign_call-Moves m.journey i fs n at_j (rw (assign_platform, q) at e)

module _ (ctx : Context) (o : Observation) (s t : FeedState) (es : List Effect) where
  apply_platform-Moves :
      (fact : PlatformAssignment)
      → apply_platform ctx.zone ctx.index
          (λ p. bind ctx p fact.scheduled)
          (λ s m. open_journey ctx s m o)
          s
          o
          fact
        ≡ some (t, es)
      → Moves s t
  unfolding apply_platform platform_outcome
  apply_platform-Moves fact e =
      let (c, _, rest) = >>=-eq-some (bind ctx o fact.scheduled) _ e in go c rest
    where
      go :
          (c : Outcome)
          → platform_outcome ctx.zone ctx.index (λ s m. open_journey ctx s m o) s o fact c
            ≡ some (t, es)
          → Moves s t
      go (refused r) e = let there : s ≡ t = ground arith in subst (Moves s) there (Moves-refl s)
      go (found m) e =
          let (opened, q, rest) = >>=-eq-some (open_journey ctx s m o) _ e in
          let (i, at_i, end) = >>=-eq-some (lookup m.journey opened.0.instances) _ rest in
          Moves-trans (open_journey-Moves ctx s opened.0 m o opened.1 q)
            (assign_platform-Moves ctx o fact opened.0 t es m i opened.1 at_i end)

  -- A step without a vehicle leaves the vehicles as they are, loses no instance and keeps each
  -- instance under its own journey.
  pub step_bare-Moves : step_bare ctx s o ≡ some (t, es) → Moves s t
  unfolding step_bare step_rest
  step_bare-Moves = go (first as_platform_assignment o) refl
    where
      rest : (c : Bool) → step_rest ctx c s o ≡ some (t, es) → Moves s t
      rest true e = cancel-Moves ctx o s t es e
      rest false e = let there : s ≡ t = ground arith in subst (Moves s) there (Moves-refl s)

      go :
          (f : Option PlatformAssignment)
          → first as_platform_assignment o ≡ f
          → step_bare ctx s o ≡ some (t, es)
          → Moves s t
      go (some fact) q e = apply_platform-Moves fact (rw (step_bare, q) at e)
      go none q e = rest (is_some (first as_trip_cancelled o)) (rw (step_bare, q) at e)
