-- ===== src/Core/Moves.antt =====
-- What the steps of the core do to the instances: they open journeys and change them, and
-- leave the vehicles alone.
use obehy.Prelude.{
  ℕ, ◌≡◌, refl, ◌∙◌, subst, Bool, true, false, Option, some, List, [], arith, inl, inr, Bool-cases,
}
use obehy.Prelude.Raises.{>>=-eq-some}
use obehy.Prelude.Dict.{lookup, insert, has, has-insert, lookup-insert_cases}
use obehy.Model.Facts.{Observation, Position}
use obehy.Model.Journey.{VehicleId, JourneyKey, journey_key_eq, Binding, Instance}
use obehy.Model.State.{VehicleState, FeedState, add_dirty}
use obehy.Model.Effects.{Effect}
use obehy.Index.{Trip}
use obehy.Keyed.{Match, span}
use obehy.Runs.{journey_spans}
use obehy.Fusion.{with_lead}
use obehy.Core.Context.{Context, EngineLaws, semantics_of}
use obehy.Core.Journey.{open_journey, new_instance, next_lifecycle, leads}
use obehy.Core.Follow.{progress, drive, moved_by, hold_events, restore, is_cancelled, position_of}

-- Every instance stands under its own journey.
pub record IsNamed (s : FeedState) : Type 0 where
  pub at_key : (j : JourneyKey) (i : Instance) → lookup j s.instances ≡ some i → i.journey ≡ j

-- The vehicles stay, no journey is lost, and the instances stay under their journeys.
pub record Moves (s t : FeedState) : Type 0 where
  pub vehicles : t.vehicles ≡ s.vehicles
  pub feed : t.feed ≡ s.feed
  pub kept : (j : JourneyKey) → has j s.instances ≡ true → has j t.instances ≡ true
  pub named : IsNamed s → IsNamed t

pub Moves-refl : (s : FeedState) → Moves s s
Moves-refl s = record { vehicles = refl; feed = refl; kept = λ j h. h; named = λ n. n }

pub Moves-trans : {s t u : FeedState} → Moves s t → Moves t u → Moves s u
Moves-trans a b = record {
  vehicles = b.vehicles ∙ a.vehicles;
  feed = b.feed ∙ a.feed;
  kept = λ j h. b.kept j (a.kept j h);
  named = λ n. b.named (a.named n);
}

-- One instance set at its own journey.
pub insert-Moves :
    (s t : FeedState) (j : JourneyKey) (i : Instance)
    → t.vehicles ≡ s.vehicles
    → t.feed ≡ s.feed
    → t.instances ≡ insert j i s.instances
    → (IsNamed s → i.journey ≡ j)
    → Moves s t
insert-Moves s t j i v f e own = record {
  vehicles = v;
  feed = f;
  kept = λ k h. rw e (has-insert j k i s.instances h);
  named = λ n. record {
    at_key = λ k l p. elim (lookup-insert_cases j k i l s.instances (rw e at p)) [
      | inl both ↦ cc (both.0, both.1, own n)
      | inr before ↦ n.at_key k l before
    ];
  };
}

module _ (ctx : Context) where
  pub open_journey-Moves :
      (s t : FeedState) (m : Match) (o : Observation) (es : List Effect)
      → open_journey ctx s m o ≡ some (t, es)
      → Moves s t
  unfolding open_journey
  open_journey-Moves s t m o es e = elim (Bool-cases (has m.journey s.instances)) [
    | inl old ↦
        let same : some (s, []) ≡ some (t, es) = rw (old, open_journey) at e in
        let there : s ≡ t = cc in subst (Moves s) there (Moves-refl s)
    | inr new ↦
        let (spans, _, opened) =
          >>=-eq-some (journey_spans ctx.index.feed m.trip m.journey.service_date) _
            (rw (new, open_journey) at e) in
        let i = new_instance ctx m o spans in
        let u : FeedState = record s { instances = insert m.journey i s.instances } in
        let there : u ≡ t = ground arith in
        subst (Moves s) there (insert-Moves s u m.journey i refl refl refl (λ n. refl))
  ]

journey-with_lead :
    (i : Instance) (vehicle : VehicleId) (o : Observation)
    → (with_lead i vehicle o).journey ≡ i.journey
unfolding with_lead
journey-with_lead i vehicle o = ground arith

journey-restore :
    (trip : Trip) (o : Observation) (c : Bool) (i : Instance)
    → (restore trip o c i).0.journey ≡ i.journey
unfolding restore
journey-restore trip o c i = ground arith

journey-hold_events :
    (c : Bool) (i : Instance) (es : List Effect) → (hold_events c i es).0.journey ≡ i.journey
unfolding hold_events
journey-hold_events true i es = refl
journey-hold_events false i es = refl

module _ (ctx : Context) (laws : EngineLaws ctx.engine) (s : FeedState) (o : Observation)
    (b : Binding) (trip : Trip) where
  journey-next_lifecycle :
      (i : Instance) (start : ℕ) (previous : Option Position)
      → (next_lifecycle ctx i trip o start previous).journey ≡ i.journey
  unfolding next_lifecycle
  journey-next_lifecycle i start previous = ground arith

  progress-Moves :
      (i j : Instance) (t : FeedState) (es : List Effect)
      → (IsNamed s → i.journey ≡ b.journey)
      → progress ctx s o b trip i ≡ some (t, j, es)
      → Moves s t
  unfolding progress
  progress-Moves i j t es own e = elim (Bool-cases (is_cancelled i)) [
    | inl cancelled ↦
        let u : FeedState = record s { instances = insert b.journey i s.instances } in
        let held : some (u, i, []) ≡ some (t, j, es) = rw (cancelled, progress) at e in
        let there : u ≡ t = ground arith in
        subst (Moves s) there (insert-Moves s u b.journey i refl refl refl own)
    | inr live ↦
        let (advanced, q, moved) =
          >>=-eq-some (ctx.engine.advance i trip o (semantics_of ctx o)) _
            (rw (live, progress) at e) in
        let held : Instance × List Effect = hold_events b.confirmed advanced.0 advanced.1 in
        let u : FeedState = record s {
          instances = insert b.journey held.0 s.instances;
          dirty = add_dirty b.journey s.dirty;
        } in
        let there : u ≡ t = ground arith in
        let kept =
          journey-hold_events b.confirmed advanced.0 advanced.1
          ∙ laws.keeps_journey i advanced.0 trip o (semantics_of ctx o) advanced.1 q in
        subst (Moves s) there (insert-Moves s u b.journey held.0 refl refl refl (λ n. kept ∙ own n))
  ]

  drive-Moves :
      (vehicle : VehicleId) (previous : Option VehicleState) (i j : Instance) (t : FeedState)
      (es : List Effect)
      → (IsNamed s → i.journey ≡ b.journey)
      → drive ctx s o vehicle previous b trip i ≡ some (t, j, es)
      → Moves s t
  unfolding drive
  drive-Moves vehicle previous i j t es own e =
      let (times, _, after) = >>=-eq-some (span ctx.zone ctx.index trip b.journey) _ e in
      let led = with_lead i vehicle o in
      let started = next_lifecycle ctx led trip o times.0 (position_of ctx previous) in
      let restored = restore trip o (is_cancelled led) started in
      let (moved, q, end) = >>=-eq-some (progress ctx s o b trip restored.0) _ after in
      let there : moved.0 ≡ t = ground arith in
      let own' =
        journey-restore trip o (is_cancelled led) started
        ∙ journey-next_lifecycle led times.0 (position_of ctx previous)
        ∙ journey-with_lead i vehicle o in
      subst (Moves s) there
        (progress-Moves restored.0 moved.1 moved.0 moved.2 (λ n. own' ∙ own n) q)

  pub moved_by-Moves :
      (vehicle : VehicleId) (previous : Option VehicleState) (i j : Instance) (t : FeedState)
      (es : List Effect)
      → (IsNamed s → i.journey ≡ b.journey)
      → moved_by ctx s o vehicle previous b trip i ≡ some (t, j, es)
      → Moves s t
  unfolding moved_by
  moved_by-Moves vehicle previous i j t es own e = elim (Bool-cases (leads ctx i vehicle o)) [
    | inl first ↦ drive-Moves vehicle previous i j t es own (rw (first, moved_by) at e)
    | inr second ↦
        let same : some (s, i, []) ≡ some (t, j, es) = rw (second, moved_by) at e in
        let there : s ≡ t = ground arith in subst (Moves s) there (Moves-refl s)
  ]
