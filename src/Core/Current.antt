-- ===== src/Core/Current.antt =====
-- A step with a trip key binds its vehicle only to a journey that is running about now.
use obehy.Prelude.{
  ◌≡◌, refl, sym, ◌∙◌, subst, ap, Bool, true, false, ◌&&◌, Option, none, some, List, [], arith,
  string_eq, nat_eq, inl, inr, ◌⊎◌, String, Bool-cases,
}
use obehy.Prelude.Raises.{>>=-eq-some}
use obehy.Prelude.Dict.{lookup, insert, has, lookup-insert_self}
use obehy.Model.Facts.{Observation, TripKey, at, as_trip_key, first}
use obehy.Model.Journey.{
  VehicleId, vehicle_id_eq, journey_key_eq, Reason, Binding, KeylessEpisode, BindingMethod,
}
use obehy.Model.State.{VehicleStatus, VehicleState, FeedState}
use obehy.Model.Effects.{Effect}
use obehy.Keyed.{Match, Outcome, found, refused, in_window, match_of}
use obehy.Keyed.Sound.{IsTripOf, IsTimed, match_of-journey, match_of-IsTimed}
use obehy.Index.{Trip}
use obehy.Core.Context.{Context, vehicle_of}
use obehy.Core.Window.{IsPlaced, bind-Admits, bind-IsPlaced}
use obehy.Core.Observe.{step}
use obehy.Core.Vehicle.{set_vehicle, vehicle_state}
use obehy.Core.Binding.{
  bind, stale, still_bound, continued_binding, continued, drop_unstarted, same_key,
}
use obehy.Core.Journey.{open_journey}
use obehy.Core.Follow.{follow, moved_by, status_of}
use obehy.Core.Step.{
  unbound, bound_anew, keyed_anew, after_keyed, step_keyed, refusal_status, repeated, step_vehicle,
  feed_eq,
}

-- The trip is the one that the binding names: the index gives it for the id, or it is a trip
-- with this id that the index has for the journey's date, public or the run of one.
pub IsTripFor : Context → Binding → Trip → Type 0
IsTripFor ctx b trip =
    (trip ≡ ctx.index.trip b.trip_id)
    ⊎ (trip.trip_id ≡ b.trip_id) × (id : String) × IsTripOf ctx.index id b.journey.service_date trip

-- The binding's journey, with its trip and the trip's times on the journey's date, admits the
-- observation's time and is not left over.
pub record Current (ctx : Context) (o : Observation) (b : Binding) : Type 0 where
  pub match : Match
  pub journey : match.journey ≡ b.journey
  pub trip : IsTripFor ctx b match.trip
  pub timed : IsTimed ctx.zone ctx.index match
  pub admits : in_window ctx.policy.time (at o) match ≡ true
  pub fresh : stale ctx match o ≡ false

module _ (ctx : Context) (s t : FeedState) (o : Observation) (vehicle : VehicleId)
    (previous : Option VehicleState) (es : List Effect) where
  -- The binding that a bound vehicle is recorded with.
  follow-binding :
      (key : Option TripKey) (episode : Option KeylessEpisode) (b : Binding) (fs : List Effect)
      (c : VehicleState)
      → follow ctx s o vehicle previous key episode b fs ≡ some (t, es)
      → lookup vehicle t.vehicles ≡ some c
      → c.binding ≡ some b
  unfolding follow set_vehicle vehicle_state
  follow-binding key episode b fs c e l =
      let (i, _, moves) = >>=-eq-some (lookup b.journey s.instances) _ e in
      let (moved, _, end) =
        >>=-eq-some (moved_by ctx s o vehicle previous b (ctx.index.trip b.trip_id) i) _ moves in
      let status = status_of moved.1.lifecycle in
      let v = vehicle_state moved.0 o vehicle status key (some b) none episode in
      let there : insert vehicle v moved.0.vehicles ≡ t.vehicles = ground arith in
      let at_vehicle : some v ≡ some c =
        sym (lookup-insert_self vehicle v moved.0.vehicles) ∙ ap (lookup vehicle) there ∙ l in
      let same : v ≡ c = cc in ap (λ (x : VehicleState). x.binding) (sym same)

  still_bound-Current : (b c : Binding) → still_bound ctx b o ≡ some (some c) → Current ctx o c
  unfolding still_bound IsTripFor
  still_bound-Current b c e =
      let (m, q, rest) =
        >>=-eq-some (match_of ctx.zone ctx.index b.journey (ctx.index.trip b.trip_id)) _ e in
      let same : b ≡ c = ground arith in
      let (public, timed) =
        match_of-IsTimed ctx.zone ctx.index (record { namespace = ""; key = "" }) b.journey
          (ctx.index.trip b.trip_id) m q in
      record {
        match = m;
        trip = inl (public ∙ ap (λ (x : Binding). ctx.index.trip x.trip_id) same);
        timed = timed;
        journey =
            match_of-journey ctx.zone ctx.index (record { namespace = ""; key = "" }) b.journey
              (ctx.index.trip b.trip_id) m q
            ∙ ap (λ (x : Binding). x.journey) same;
        admits = ground arith;
        fresh = ground arith;
      }

  continued_binding-Current :
      (held : Option Binding) (c : Binding) (same : Bool)
      → continued_binding ctx s.instances o held same ≡ some (some c)
      → Current ctx o c
  unfolding continued_binding
  continued_binding-Current none c same e = absurd (ground arith)
  continued_binding-Current (some b) c same e =
      elim (Bool-cases (same && has b.journey s.instances)) [
        | inl kept ↦ still_bound-Current b c (rw (kept, continued_binding) at e)
        | inr lost ↦ absurd (ground arith)
      ]

  continued-Current :
      (key : TripKey) (b : Binding)
      → continued ctx previous key o s ≡ some (some b)
      → Current ctx o b
  unfolding continued
  continued-Current key b = go previous
    where
      go : (x : Option VehicleState) → continued ctx x key o s ≡ some (some b) → Current ctx o b
      go none e = absurd (ground arith)
      go (some v) e = continued_binding-Current v.binding b (same_key ctx v.trip_key key) e

  follow-Current :
      (key : Option TripKey) (episode : Option KeylessEpisode) (b : Binding) (fs : List Effect)
      (c : VehicleState) (d : Binding)
      → Current ctx o b
      → follow ctx s o vehicle previous key episode b fs ≡ some (t, es)
      → lookup vehicle t.vehicles ≡ some c
      → c.binding ≡ some d
      → Current ctx o d
  follow-Current key episode b fs c d h e l p =
      let same : b ≡ d = cc (follow-binding key episode b fs c e l, p) in
      subst (Current ctx o) same h

module _ (ctx : Context) (s t : FeedState) (o : Observation) (vehicle : VehicleId)
    (previous : Option VehicleState) (es : List Effect) (c : VehicleState) (d : Binding)
    (l : lookup vehicle t.vehicles ≡ some c) (p : c.binding ≡ some d) where
  unbound-binding :
      (u : FeedState) (status : VehicleStatus) (key : Option TripKey) (reason : Reason)
      (episode : Option KeylessEpisode)
      → unbound u o vehicle status key reason episode ≡ (t, es)
      → ⊥
  unfolding unbound set_vehicle vehicle_state
  unbound-binding u status key reason episode e =
      let v = vehicle_state u o vehicle status key none (some reason) episode in
      let there : insert vehicle v u.vehicles ≡ t.vehicles = ground arith in
      let at_vehicle : some v ≡ some c =
        sym (lookup-insert_self vehicle v u.vehicles) ∙ ap (lookup vehicle) there ∙ l in
      let same : v ≡ c = cc in
      let none_there : none ≡ some d = ap (λ (x : VehicleState). x.binding) same ∙ p in cc

  keyed_anew-Current :
      (key : TripKey) (r : Outcome)
      → ((m : Match) → r ≡ found m → (in_window ctx.policy.time (at o) m ≡ true) × IsPlaced ctx m)
      → keyed_anew ctx s o vehicle previous key r ≡ some (t, es)
      → Current ctx o d
  unfolding keyed_anew bound_anew IsTripFor IsPlaced
  keyed_anew-Current key (refused r) h e =
      absurd (unbound-binding s (refusal_status r) (some key) r none (ground arith))
  keyed_anew-Current key (found m) h e = elim (Bool-cases (stale ctx m o)) [
    | inl old ↦ absurd (
        unbound-binding (drop_unstarted s m.journey vehicle) VehicleStatus.unmatched (some key)
          Reason.stale_key none (ground arith))
    | inr new ↦
        let (opened, _, rest) =
          >>=-eq-some (open_journey ctx s m o) _ (rw (new, keyed_anew) at e) in
        let (i, _, end) = >>=-eq-some (lookup m.journey opened.0.instances) _ rest in
        let b : Binding = record {
          vehicle = vehicle;
          journey = m.journey;
          trip_id = m.trip.trip_id;
          method = BindingMethod.keyed;
          bound_at = at o;
          confirmed = true;
        } in
        let current : Current ctx o b = record {
          match = m;
          journey = refl;
          trip = inr (refl, (h m refl).1.1, (h m refl).1.2);
          timed = (h m refl).1.0;
          admits = (h m refl).0;
          fresh = new;
        } in
        follow-Current ctx opened.0 t o vehicle previous es (some key) none b _ c d current end l p
  ]

  after_keyed-Current :
      (key : TripKey) (held : Option Binding)
      → ((b : Binding) → held ≡ some b → Current ctx o b)
      → after_keyed ctx s o vehicle previous key held ≡ some (t, es)
      → Current ctx o d
  unfolding after_keyed
  after_keyed-Current key (some b) h e =
      follow-Current ctx s t o vehicle previous es (some key) none b [] c d (h b refl) e l p
  after_keyed-Current key none h e =
      let (r, q, rest) = >>=-eq-some (bind ctx o (at o)) _ e in
      keyed_anew-Current key r
        (λ m f.
          let bound = subst (λ x. bind ctx o (at o) ≡ some x) f q in
          (bind-Admits ctx o (at o) m bound, bind-IsPlaced ctx o (at o) m bound))
        rest

  step_keyed-Current :
      (key : TripKey) → step_keyed ctx s o vehicle previous key ≡ some (t, es) → Current ctx o d
  unfolding step_keyed
  step_keyed-Current key e =
      let (held, q, rest) = >>=-eq-some (continued ctx previous key o s) _ e in
      after_keyed-Current key held
        (λ b f.
          continued-Current ctx s t o vehicle previous es key b
            (subst (λ x. continued ctx previous key o s ≡ some x) f q))
        rest

-- A vehicle that a step with a trip key leaves bound is bound to a journey whose trip, at the times
-- that the index gives it on the journey's date, has the observation's time in its admissible
-- window and is not left over from an earlier trip; this holds of a new binding and of one that
-- continues. The trip is the one that the index has for the binding's trip id, or has this id and
-- is a trip of the index, or the run of one, on that date. The repeated fix, which changes
-- nothing, is left out.
pub step-Current :
    (ctx : Context) (s t : FeedState) (o : Observation) (es : List Effect) (vehicle : VehicleId)
    (key : TripKey) (c : VehicleState) (b : Binding)
    → vehicle_of o ≡ some vehicle
    → first as_trip_key o ≡ some key
    → repeated (lookup vehicle s.vehicles) o ≡ false
    → step ctx s o ≡ some (t, es)
    → lookup vehicle t.vehicles ≡ some c
    → c.binding ≡ some b
    → Current ctx o b
unfolding step step_vehicle
step-Current ctx s t o es vehicle key c b v k new e l p =
    step_keyed-Current ctx s t o vehicle (lookup vehicle s.vehicles) es c b l p key
      (ground (arith, v, k, new, e))
