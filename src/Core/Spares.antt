-- ===== src/Core/Spares.antt =====
-- What a cancellation and a vehicle that does not lead leave alone.
use obehy.Prelude.{
  String, ◌≤◌, ◌+◌, ◌≢◌, ==_ne, string_eq, ◌≡◌, refl, sym, ◌∙◌, ap, true, false, ◌&&◌, Option, some,
  List, arith, ◌==◌, ◌⊎◌, inl, inr, Bool-cases, ==→eq,
}
use obehy.Prelude.Raises.{>>=-eq-some}
use obehy.Prelude.Dict.{lookup, insert, has, lookup-insert}
use obehy.Model.Facts.{Observation, TripKey, at}
use obehy.Model.Journey.{
  VehicleId, vehicle_id_eq, JourneyKey, journey_key_eq, Instance, Lifecycle, Binding,
  KeylessEpisode, Lead, SourceTrack, public,
}
use obehy.Model.State.{VehicleState, FeedState}
use obehy.Model.Effects.{Effect}
use obehy.Runs.{journey_spans}
use obehy.Fusion.{source_track, lead_of, own_lead, track_lead}
use obehy.Keyed.{Match, Outcome, found, refused}
use obehy.Core.Context.{Context}
use obehy.Core.Vehicle.{set_vehicle}
use obehy.Core.Binding.{bind}
use obehy.Core.Journey.{open_journey, new_instance, leads}
use obehy.Core.Follow.{follow, moved_by}
use obehy.Core.Cancel.{
  cancel, cancel_match, cancel_outcome, cancelled_instance, waits_to_run, single,
}

lookup-insert_absent :
    (j k : JourneyKey) (i new : Instance) (s : FeedState)
    → has k s.instances ≡ false
    → lookup j s.instances ≡ some i
    → lookup j (insert k new s.instances) ≡ some i
lookup-insert_absent j k i new s absent there = elim (Bool-cases (k == j)) [
  | inr other ↦ rw (lookup-insert k j new s.instances, other) there
  | inl same ↦
      let at_k : lookup k s.instances ≡ some i = rw (==→eq k j same) there in
      let p : true ≡ false = rw at_k at absent in absurd (cc)
]

-- An instance that is open stays as it is when a journey is opened.
open_journey-keeps :
    (ctx : Context) (s t : FeedState) (m : Match) (o : Observation) (es : List Effect)
    (j : JourneyKey) (i : Instance)
    → open_journey ctx s m o ≡ some (t, es)
    → lookup j s.instances ≡ some i
    → lookup j t.instances ≡ some i
unfolding open_journey
open_journey-keeps ctx s t m o es j i e there = elim (Bool-cases (has m.journey s.instances)) [
  | inl old ↦ let same : s ≡ t = ground (arith, old, e) in rw (sym same) there
  | inr new ↦
      let (spans, _, opened) =
        >>=-eq-some (journey_spans ctx.index.feed m.trip m.journey.service_date) _
          (rw (new, open_journey) at e) in
      let instances : insert m.journey (new_instance ctx m o spans) s.instances ≡ t.instances =
        ground (arith, opened) in
      rw (sym instances)
        (lookup-insert_absent j m.journey i (new_instance ctx m o spans) s new there)
]

-- Seen running, or finished.
unfoldable pub HasRun : Instance → Type 0
HasRun i = (i.lifecycle ≡ Lifecycle.running) ⊎ (i.lifecycle ≡ Lifecycle.finished)

HasRun-waits : (ctx : Context) (i : Instance) → HasRun i → waits_to_run ctx i.lifecycle ≡ false
unfolding HasRun waits_to_run
HasRun-waits ctx i (inl r) = rw r refl
HasRun-waits ctx i (inr f) = rw f refl

module _ (ctx : Context) (s t : FeedState) (o : Observation) (es : List Effect) (j : JourneyKey)
    (i : Instance) (there : lookup j s.instances ≡ some i) (ran : HasRun i) where
  cancel_match-spares :
      (m : Match) → cancel_match ctx s o m ≡ some (t, es) → lookup j t.instances ≡ some i
  unfolding cancel_match
  cancel_match-spares m e =
      let (opened, q, rest) = >>=-eq-some (open_journey ctx s m o) _ e in
      let (k, at_k, end) = >>=-eq-some (lookup m.journey opened.0.instances) _ rest in
      let kept = open_journey-keeps ctx s opened.0 m o opened.1 j i q there in
      elim (Bool-cases (waits_to_run ctx k.lifecycle && single ctx (public k))) [
        | inr stays ↦ let same : opened.0 ≡ t = ground (arith, stays, end) in rw (sym same) kept
        | inl cancels ↦
            let instances : insert m.journey (cancelled_instance ctx k o) opened.0.instances
                ≡ t.instances =
              ground (arith, cancels, end) in
            elim (Bool-cases (m.journey == j)) [
              | inr other ↦
                  rw
                    (
                      sym instances,
                      lookup-insert m.journey j (cancelled_instance ctx k o) opened.0.instances,
                      other,
                    )
                    kept
              | inl same ↦
                  let p : some k ≡ some i =
                    sym at_k
                    ∙ ap (λ x. lookup x opened.0.instances) (==→eq m.journey j same)
                    ∙ kept in
                  let k_is_i : k ≡ i = cc in
                  let waits : waits_to_run ctx i.lifecycle ≡ true =
                    ground (arith, cancels, k_is_i) in
                  let no_wait = HasRun-waits ctx i ran in absurd (cc)
            ]
      ]

  -- A source's cancellation leaves an instance that was seen running or has finished as it is.
  pub cancel-spares : cancel ctx s o ≡ some (t, es) → lookup j t.instances ≡ some i
  unfolding cancel cancel_outcome
  cancel-spares e = let (c, _, rest) = >>=-eq-some (bind ctx o (at o)) _ e in go c rest
    where
      go : (c : Outcome) → cancel_outcome ctx s o c ≡ some (t, es) → lookup j t.instances ≡ some i
      go (refused r) e = let same : s ≡ t = ground arith in rw (sym same) there
      go (found m) e = cancel_match-spares m e

-- The vehicle that leads a source on an instance, with when it was last seen: the instance's lead,
-- if it is of the source; else the lead of the source's track.
pub data LedBy (i : Instance) (source : String) (lead : Lead) : Type 0 where
  first_lead : i.lead ≡ some lead → lead.vehicle.source ≡ source → LedBy i source lead
  track_leads :
      (other : Lead) (track : SourceTrack)
      → i.lead ≡ some other
      → other.vehicle.source ≢ source
      → source_track i source ≡ some track
      → track.lead ≡ some lead
      → LedBy i source lead

LedBy-lead_of :
    (i : Instance) (source : String) (lead : Lead)
    → LedBy i source lead
    → lead_of i source ≡ some lead
unfolding lead_of own_lead track_lead
LedBy-lead_of i source lead (first_lead e same) =
    let own : (lead.vehicle.source == source) ≡ true = (string_eq.same_iff _ _).1 same in
    rw (lead_of, e, own) refl
LedBy-lead_of i source lead (track_leads other track e apart there led) =
    rw (lead_of, e, ==_ne other.vehicle.source source apart, there) led

other_leads :
    (ctx : Context) (i : Instance) (vehicle : VehicleId) (o : Observation) (lead : Lead)
    → LedBy i vehicle.source lead
    → lead.vehicle ≢ vehicle
    → at o ≤ lead.seen + ctx.policy.rail.position_fresh_s
    → leads ctx i vehicle o ≡ false
unfolding leads
other_leads ctx i vehicle o lead led other fresh =
    let e = LedBy-lead_of i vehicle.source lead led in
    rw (leads, e) (ground (arith, ==_ne lead.vehicle vehicle other, fresh))

-- A bound vehicle changes no instance while another vehicle of its source leads its journey and was
-- seen no longer ago than a position stays fresh: it is only recorded.
pub follow-second :
    (ctx : Context) (s t : FeedState) (o : Observation) (vehicle : VehicleId)
    (previous : Option VehicleState) (key : Option TripKey) (episode : Option KeylessEpisode)
    (b : Binding) (fs es : List Effect) (i : Instance) (lead : Lead)
    → lookup b.journey s.instances ≡ some i
    → LedBy i vehicle.source lead
    → lead.vehicle ≢ vehicle
    → at o ≤ lead.seen + ctx.policy.rail.position_fresh_s
    → follow ctx s o vehicle previous key episode b fs ≡ some (t, es)
    → t.instances ≡ s.instances
unfolding follow moved_by set_vehicle
follow-second ctx s t o vehicle previous key episode b fs es i lead there led other fresh e =
    let second = other_leads ctx i vehicle o lead led other fresh in
    ground (arith, rw (follow, there, moved_by, second) at e)
