-- ===== src/Core/Again.antt =====
-- What a step leaves alone: the other vehicles, a later fix, and all of a repeated observation.
use obehy.Prelude.{
  ◌≡◌, ◌≢◌, refl, sym, ◌∙◌, subst, ap, true, false, ◌&&◌, Option, none, some, List, [], arith, ◌==◌,
  inl, inr, Bool-cases, leb, is_some, ==_refl, ==→eq, ==_ne,
}
use obehy.Prelude.Dict.{lookup, lookup-insert, lookup-insert_self}
use obehy.Model.Facts.{Instant, Position, Observation, facts_eq, at, first, as_position}
use obehy.Model.Journey.{VehicleId, vehicle_id_eq, journey_key_eq}
use obehy.Model.State.{VehicleState, FeedState}
use obehy.Model.Effects.{Effect}
use obehy.Core.Context.{Context, EngineLaws, vehicle_of}
use obehy.Core.Vehicle.{float_eq, vehicle_state, fix, fix_of, later_fix}
use obehy.Core.Step.{repeated, step_vehicle, feed_eq}
use obehy.Core.Observe.{step}
use obehy.Core.Recorded.{Recorded}
use obehy.Core.Shape.{step_vehicle-Recorded}
use obehy.Core.Sound.{
  IsSound, step-cases, new_state, recorded_vehicles, recorded_feed, recorded_fix,
}
use obehy.Core.Bare.{step_bare-Moves}

-- A time that is known stays known and does not move back.
unfoldable pub NoEarlier : Option Instant → Option Instant → Type 0
NoEarlier none t = Unit
NoEarlier (some p) none = ⊥
NoEarlier (some p) (some q) = leb p q ≡ true

later_fix-NoEarlier :
    (held : Position) (t : Instant) (p : Option Position) (now : Instant)
    → NoEarlier (some t) (later_fix held t p now).1
unfolding later_fix NoEarlier
later_fix-NoEarlier held t none now = ground arith
later_fix-NoEarlier held t (some p) now = elim (Bool-cases (leb now t)) [
  | inl older ↦ rw older (ground arith)
  | inr newer ↦ rw newer (elim (Bool-cases (p.lat == held.lat && p.lon == held.lon)) [
    | inl same ↦ rw same (ground arith)
    | inr moved ↦ rw moved (ground arith)
  ])
]

fix_of-NoEarlier :
    (held : Option Position) (t : Option Instant) (p : Option Position) (now : Instant)
    → is_some held ≡ is_some t
    → NoEarlier t (fix_of held t p now).1
unfolding fix_of NoEarlier
fix_of-NoEarlier none none p now e = tt
fix_of-NoEarlier (some held) none p now e = tt
fix_of-NoEarlier none (some t) p now e = cc
fix_of-NoEarlier (some held) (some t) p now e = later_fix-NoEarlier held t p now

module _ (o : Observation) (vehicle : VehicleId) (s t : FeedState)
    (r : Recorded s o vehicle t) where
  recorded-repeated :
      (at_source : Instant)
      → o.observed_at ≡ some at_source
      → repeated (lookup vehicle t.vehicles) o ≡ true
  unfolding repeated vehicle_state
  recorded-repeated at_source q =
      rw
        (
          (recorded_vehicles o vehicle s t r),
          lookup-insert_self vehicle (new_state o vehicle s t r) s.vehicles,
          q,
          ==_refl at_source,
        )
        (==_refl o.facts)

  fix-recorded :
      (c : VehicleState)
      → lookup vehicle s.vehicles ≡ some c
      → is_some c.position ≡ is_some c.position_at
      → NoEarlier c.position_at (new_state o vehicle s t r).position_at
  unfolding fix
  fix-recorded c l e =
      rw ((recorded_fix o vehicle s t r).1, r.rests.vehicles, l)
        (fix_of-NoEarlier c.position c.position_at (first as_position o) (at o) e)

NoEarlier-refl : (t : Option Instant) → NoEarlier t t
unfolding NoEarlier
NoEarlier-refl none = tt
NoEarlier-refl (some t) = ground arith

step-repeated :
    (ctx : Context) (s : FeedState) (o : Observation) (v : VehicleId)
    → vehicle_of o ≡ some v
    → (o.feed == s.feed) ≡ true
    → repeated (lookup v s.vehicles) o ≡ true
    → step ctx s o ≡ some (s, [])
unfolding step step_vehicle
step-repeated ctx s o v p f again = rw (p, f, again) refl

step-feed :
    (ctx : Context) (s t : FeedState) (o : Observation) (es : List Effect)
    → step ctx s o ≡ some (t, es)
    → (o.feed == s.feed) ≡ true
unfolding step
step-feed ctx s t o es e = ground arith

module _ (ctx : Context) (s t : FeedState) (o : Observation) (es : List Effect) where
  -- A step changes the record of no vehicle but the one that its observation names.
  pub step-others :
      (w : VehicleId)
      → EngineLaws ctx.engine
      → vehicle_of o ≢ some w
      → step ctx s o ≡ some (t, es)
      → lookup w t.vehicles ≡ lookup w s.vehicles
  step-others w laws d e = elim (step-cases ctx s t o es e) [
    | inl (_, bare) ↦ ap (lookup w) (step_bare-Moves ctx o s t es bare).vehicles
    | inr (v, q, moved) ↦ elim (step_vehicle-Recorded ctx laws o v s t es moved) [
      | inl (_, same) ↦ rw same refl
      | inr r ↦
          let other : (v == w) ≡ false = ==_ne v w (λ p. d (q ∙ ap some p)) in
          rw
            (recorded_vehicles o v s t r, lookup-insert v w (new_state o v s t r) s.vehicles, other)
            refl
    ]
  ]

  -- A step never moves the time of a vehicle's last new position back, and forgets no vehicle.
  pub step-fixes :
      (w : VehicleId) (c : VehicleState)
      → EngineLaws ctx.engine
      → IsSound s
      → lookup w s.vehicles ≡ some c
      → step ctx s o ≡ some (t, es)
      → (d : VehicleState) × (lookup w t.vehicles ≡ some d) × NoEarlier c.position_at d.position_at
  step-fixes w c laws h l e = elim (step-cases ctx s t o es e) [
    | inl (_, bare) ↦
        (c, rw (step_bare-Moves ctx o s t es bare).vehicles l, NoEarlier-refl c.position_at)
    | inr (v, q, moved) ↦ elim (step_vehicle-Recorded ctx laws o v s t es moved) [
      | inl (_, same) ↦ (c, rw (sym same) l, NoEarlier-refl c.position_at)
      | inr r ↦ elim (Bool-cases (v == w)) [
        | inr other ↦ (
          c,
          rw
              (
                recorded_vehicles o v s t r,
                lookup-insert v w (new_state o v s t r) s.vehicles,
                other,
              )
              l,
          NoEarlier-refl c.position_at,
        )
        | inl same ↦ (
          new_state o v s t r,
          rw (recorded_vehicles o v s t r, lookup-insert v w (new_state o v s t r) s.vehicles, same)
              refl,
          fix-recorded o v s t r c (rw (==→eq v w same) l) (h.fixed w c l),
        )
      ]
    ]
  ]

  -- The same fix again changes nothing: after a step of an observation with a source time and a
  -- vehicle, a step of the same observation leaves the state as it is and has no effect.
  pub step-again :
      (v : VehicleId) (at_source : Instant)
      → EngineLaws ctx.engine
      → vehicle_of o ≡ some v
      → o.observed_at ≡ some at_source
      → step ctx s o ≡ some (t, es)
      → step ctx t o ≡ some (t, [])
  step-again v at_source laws p q e = elim (step-cases ctx s t o es e) [
    | inl (none_there, _) ↦ absurd (cc)
    | inr (w, p', moved) ↦
        let same : w ≡ v = cc in
        elim (step_vehicle-Recorded ctx laws o w s t es moved) [
          | inl (again, stays) ↦
              subst (λ x. step ctx x o ≡ some (x, [])) stays
                (step-repeated ctx s o w p' (step-feed ctx s t o es e) again)
          | inr r ↦
              step-repeated ctx t o w p' (rw (recorded_feed o w s t r) (step-feed ctx s t o es e))
                (recorded-repeated o w s t r at_source q)
        ]
  ]
