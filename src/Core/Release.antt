-- ===== src/Core/Release.antt =====
-- The move of a feed's state onto a new release keeps it sound.
use obehy.Prelude.{
  ◌≡◌, refl, sym, ◌∙◌, ap, true, not, Option, none, some, List, arith, is_some, Option-cases, inl,
  inr,
}
use obehy.Prelude.Raises.{>>=-eq-some}
use obehy.Prelude.Dict.{
  Dict, has, lookup, bind_at, lookup-filter_map, filter_map, lookup-filter_map_cases,
}
use obehy.Prelude.Sort.{sort_by}
use obehy.Model.Journey.{
  VehicleId, vehicle_id_eq, JourneyKey, journey_key_eq, Binding, Reason, Instance,
}
use obehy.Model.State.{VehicleState, VehicleStatus, FeedState}
use obehy.Model.Effects.{Effect}
use obehy.Index.{IndexView, Trip}
use obehy.Core.Binding.{lifecycle_eq}
use obehy.Core.Rebase.{
  rebased, moved_instance, rebound, resolve, rebase_vehicle, rebase, all_snapshots, before,
}
use obehy.Core.Sound.{IsSound}
use obehy.Core.Keeps.{IsNamed-filter_map}

module _ (index : IndexView) where
  journey-rebased :
      (j : JourneyKey) (i k : Instance) → rebased index j i ≡ some k → k.journey ≡ i.journey
  unfolding rebased moved_instance
  journey-rebased j i k e = ground arith

  rebound-binding :
      (is : Dict JourneyKey Instance) (v : VehicleState) (b : Binding)
      → (d : Binding) → (rebound index is v b).binding ≡ some d
      → has d.journey is ≡ true
  unfolding rebound
  rebound-binding is v b d e = ground arith

  rebase_vehicle-binding :
      (is : Dict JourneyKey Instance) (w : VehicleId) (v c : VehicleState) (d : Binding)
      → rebase_vehicle index is w v ≡ some c
      → c.binding ≡ some d
      → has d.journey is ≡ true
  unfolding rebase_vehicle
  rebase_vehicle-binding is w v c d e p = go v.binding refl
    where
      go : (x : Option Binding) → v.binding ≡ x → has d.journey is ≡ true
      go none q =
          let kept : some v ≡ some c = rw (rebase_vehicle, q) at e in
          let same : v ≡ c = cc in absurd (ground arith)
      go (some b) q =
          let kept : some (rebound index is v b) ≡ some c = rw (rebase_vehicle, q) at e in
          let same : rebound index is v b ≡ c = cc in rebound-binding is v b d (rw same p)

  rebase_vehicle-fix :
      (is : Dict JourneyKey Instance) (w : VehicleId) (v c : VehicleState)
      → rebase_vehicle index is w v ≡ some c
      → (c.position ≡ v.position) × (c.position_at ≡ v.position_at) × (c.vehicle ≡ v.vehicle)
  unfolding rebase_vehicle rebound
  rebase_vehicle-fix is w v c e = ground arith

  rebase_vehicle-explained :
      (is : Dict JourneyKey Instance) (w : VehicleId) (v c : VehicleState)
      → rebase_vehicle index is w v ≡ some c
      → is_some v.binding ≡ not (is_some v.reason)
      → is_some c.binding ≡ not (is_some c.reason)
  unfolding rebase_vehicle rebound
  rebase_vehicle-explained is w v c e h = ground arith

  -- What the vehicles of a feed become on the new release.
  pub record Follows (s t : FeedState) : Type 0 where
    idle :
        (w : VehicleId) (v : VehicleState)
        → lookup w s.vehicles ≡ some v
        → v.binding ≡ none
        → lookup w t.vehicles ≡ some v
    carried :
        (w : VehicleId) (v : VehicleState) (b : Binding) (trip : Trip)
        → lookup w s.vehicles ≡ some v
        → v.binding ≡ some b
        → resolve index b.journey ≡ some trip
        → lookup w t.vehicles
          ≡ some (record v { binding = some (record b { trip_id = trip.trip_id }) })
    dropped :
        (w : VehicleId) (v : VehicleState) (b : Binding)
        → lookup w s.vehicles ≡ some v
        → v.binding ≡ some b
        → resolve index b.journey ≡ none
        → lookup w t.vehicles
          ≡ some (record v {
            status = VehicleStatus.unmatched;
            binding = none;
            reason = some Reason.no_trip;
          })

  module _ (s t : FeedState) (h : IsSound s) (is : Dict JourneyKey Instance)
      (moved : is ≡ filter_map (rebased index) s.instances)
      (vehicles : t.vehicles ≡ filter_map (rebase_vehicle index is) s.vehicles) (w : VehicleId)
      (v : VehicleState) (there : lookup w s.vehicles ≡ some v) where
    at_vehicle : lookup w t.vehicles ≡ rebase_vehicle index is w v
    at_vehicle =
        ap (lookup w) vehicles
        ∙ lookup-filter_map (rebase_vehicle index is) w s.vehicles
        ∙ ap (bind_at (rebase_vehicle index is) w) there

    idle_lem : v.binding ≡ none → lookup w t.vehicles ≡ some v
    unfolding rebase_vehicle
    idle_lem e = at_vehicle ∙ rw e refl

    module _ (b : Binding) (e : v.binding ≡ some b) where
      at_journey : (i : Instance) × (lookup b.journey is ≡ rebased index b.journey i)
      at_journey = elim (Option-cases (lookup b.journey s.instances)) [
        | inl none_there ↦ absurd (cc (h.live w v b there e, none_there))
        | inr (i, l) ↦ (
          i,
          ap (lookup b.journey) moved
              ∙ lookup-filter_map (rebased index) b.journey s.instances
              ∙ ap (bind_at (rebased index) b.journey) l,
        )
      ]

      carried_lem :
          (trip : Trip)
          → resolve index b.journey ≡ some trip
          → lookup w t.vehicles
            ≡ some (record v { binding = some (record b { trip_id = trip.trip_id }) })
      unfolding rebase_vehicle rebound rebased moved_instance
      carried_lem trip r =
          let (i, l) = at_journey in
          let kept : lookup b.journey is ≡ some (moved_instance index b.journey trip i) =
            l ∙ rw (rebased, r) refl in
          at_vehicle ∙ rw (rebase_vehicle, e, rebound, kept) refl

      dropped_lem :
          resolve index b.journey ≡ none
          → lookup w t.vehicles
            ≡ some (record v {
              status = VehicleStatus.unmatched;
              binding = none;
              reason = some Reason.no_trip;
            })
      unfolding rebase_vehicle rebound rebased
      dropped_lem r =
          let (i, l) = at_journey in
          let lost : lookup b.journey is ≡ none = l ∙ rw (rebased, r) refl in
          at_vehicle ∙ rw (rebase_vehicle, e, rebound, lost) refl

  -- A move onto a new release keeps the state sound, and every vehicle follows its journey there:
  -- a bound vehicle keeps its binding, with the id of the trip that its journey's key names on the
  -- new release; one whose journey does not run there is unmatched, for want of a trip; a vehicle
  -- without a binding is left as it is.
  pub rebase-IsSound :
      (s t : FeedState) (es : List Effect)
      → IsSound s
      → rebase index s ≡ some (t, es)
      → IsSound t × Follows s t
  unfolding rebase
  rebase-IsSound s t es h e =
      let (_, _, end) =
        >>=-eq-some (all_snapshots index (sort_by (before index) s.instances)) _ e in
      let is = filter_map (rebased index) s.instances in
      let vehicles : t.vehicles ≡ filter_map (rebase_vehicle index is) s.vehicles = ground arith in
      let instances : t.instances ≡ is = ground arith in
      (
        record {
          named = IsNamed-filter_map (rebased index) s t instances journey-rebased h.named;
          live = λ w c b l p.
              let (v, _, moved) =
                lookup-filter_map_cases (rebase_vehicle index is) w s.vehicles c
                  (rw vehicles at l) in
              rw instances (rebase_vehicle-binding is w v c b moved p);
          fixed = λ w c l.
              let (v, there, moved) =
                lookup-filter_map_cases (rebase_vehicle index is) w s.vehicles c
                  (rw vehicles at l) in
              let (p, q, _) = rebase_vehicle-fix is w v c moved in
              ap is_some p ∙ h.fixed w v there ∙ sym (ap is_some q);
          explained = λ w c l.
              let (v, there, moved) =
                lookup-filter_map_cases (rebase_vehicle index is) w s.vehicles c
                  (rw vehicles at l) in
              rebase_vehicle-explained is w v c moved (h.explained w v there);
          own = λ w c l.
              let (v, there, moved) =
                lookup-filter_map_cases (rebase_vehicle index is) w s.vehicles c
                  (rw vehicles at l) in
              (rebase_vehicle-fix is w v c moved).2 ∙ h.own w v there;
        },
        record {
          idle = λ w v l. idle_lem s t h is refl vehicles w v l;
          carried = λ w v b trip l e. carried_lem s t h is refl vehicles w v l b e trip;
          dropped = λ w v b l e. dropped_lem s t h is refl vehicles w v l b e;
        },
      )
