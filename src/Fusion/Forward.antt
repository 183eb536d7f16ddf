-- ===== src/Fusion/Forward.antt =====
-- A point event (`apply_point` of src/obehy/realtime/timeline/fusion.py) moves a run forward only,
-- at a call where it fits the run's other events.
use obehy.Prelude.{
  ℕ, String, zero, suc, ◌+◌, ◌-◌, ◌≡◌, ◌≢◌, refl, ap, subst, Bool, true, false, ◌&&◌, Option, none,
  some, List, [], ◌∷◌, ◌⊎◌, inl, inr, Bool-cases, Option-cases, arith, ◌==◌, nat_eq,
}
use obehy.Prelude.Ints.{lez, lez_refl, lez_total, ltz, maxz}
use obehy.Prelude.Lists.{get_elem?, drop, length}
use obehy.Prelude.Raises.{>>=-eq-some}
use obehy.Model.Facts.{Interval, PointEvent, EventKind, Observation, first, Float, Instant}
use obehy.Model.Journey.{CallState, Track, Progress, SourceTrack, Instance}
use obehy.Model.Effects.{Effect}
use obehy.Index.{Call, Trip, IndexView}
use obehy.Policy.{RailPolicy, ProgressPolicy}
use obehy.Platforms.{set_call}
use obehy.Runs.{public_call}
use obehy.Timeline.Estimate.{merge}
use obehy.Timeline.Timetable.{Plan}
use obehy.Fusion.{source_track, with_track}
use obehy.Fusion.Points.{
  as_point_event, anchor, with_event, progress_to, note_point, with_point, place_point, apply_point,
  kind_of, event_of, along_of, same_interval, report_point, settle_point,
}
use obehy.Fusion.Resolve.{
  start_call, consistent, is_coded, also_found, resolve_from, resolve_point, codes_of,
}

-- The call at place `n` of the trip has one of the codes, and the event fits there.
pub record IsPlace (index : IndexView) (i : Instance) (trip : Trip) (codes : List String)
    (actual : Interval) (rail : RailPolicy) (start n : ℕ) : Type 0 where
  pub call : Call
  pub offset : ℕ
  pub is_from_start : n ≡ start + offset
  pub is_call : get_elem? (drop start trip.calls) offset ≡ some call
  pub has_code : is_coded index codes call ≡ true
  pub has_room : consistent i n actual rail ≡ true

module _ (index : IndexView) (i : Instance) (codes : List String) (actual : Interval)
    (rail : RailPolicy) where
  unfoldable Found : ℕ → List Call → Option ℕ × Bool → Type 0
  Found start cs (none, misfit) = Unit
  Found start cs (some n, misfit) =
      (call : Call) × (offset : ℕ) × (n ≡ start + offset)
      × (get_elem? cs offset ≡ some call)
      × (is_coded index codes call ≡ true)
      × (consistent i n actual rail ≡ true)

  Found-later :
      (start : ℕ) (c : Call) (cs : List Call) (r : Option ℕ × Bool)
      → Found (suc start) cs r
      → Found start (c ∷ cs) r
  unfolding Found
  Found-later start c cs (none, misfit) f = tt
  Found-later start c cs (some n, misfit) (call, offset, e, there, coded, room) =
      (call, suc offset, omega (arith, e), there, coded, room)

  also_found-Found :
      (start : ℕ) (cs : List Call) (r : Option ℕ × Bool)
      → Found start cs r
      → Found start cs (also_found r)
  unfolding Found also_found
  also_found-Found start cs (none, misfit) f = tt
  also_found-Found start cs (some n, misfit) f = f

  resolve_from-Found :
      (start : ℕ) (cs : List Call)
      → Found start cs (resolve_from index i codes actual rail start cs)
  unfolding Found resolve_from
  resolve_from-Found start [] = tt
  resolve_from-Found start (c ∷ cs) =
      let rest = Found-later start c cs _ (resolve_from-Found (suc start) cs) in
      elim (Bool-cases (is_coded index codes c)) [
        | inr other ↦ rw other rest
        | inl coded ↦ rw coded (elim (Bool-cases (consistent i start actual rail)) [
          | inl room ↦ rw room (c, zero, omega arith, refl, coded, room)
          | inr late ↦ rw late (also_found-Found start (c ∷ cs) _ rest)
        ])
      ]

-- The other calls are the same.
OthersSame : ℕ → List CallState → List CallState → Type 0
OthersSame n before after = (k : ℕ) → k ≢ n → get_elem? after k ≡ get_elem? before k

set_call-others :
    (n : ℕ) (state : CallState) (cs : List CallState) → OthersSame n cs (set_call cs n state)
unfolding OthersSame set_call
set_call-others n state [] k other = refl
set_call-others zero state (c ∷ cs) zero other = absurd (other refl)
set_call-others zero state (c ∷ cs) (suc k) other = refl
set_call-others (suc n) state (c ∷ cs) zero other = refl
set_call-others (suc n) state (c ∷ cs) (suc k) other =
    set_call-others n state cs k (λ e. other (ap suc e))

-- The run is as far as before, or further.
unfoldable pub ReachesOn : Option Progress → Option Progress → Type 0
ReachesOn none after = Unit
ReachesOn (some p) none = ⊥
ReachesOn (some p) (some q) = lez p.distance_m q.distance_m ≡ true

unfoldable pub CommitsOn : Option Track → Option Track → Type 0
CommitsOn none after = after ≡ none
CommitsOn (some t) none = ⊥
CommitsOn (some t) (some u) = lez t.committed_m u.committed_m ≡ true

progress_to-on :
    (plan : Plan) (along : Float) (at : Instant) (p : Option Progress)
    → ReachesOn p (progress_to plan along at p)
unfolding ReachesOn progress_to lez
progress_to-on plan along at none = tt
progress_to-on plan along at (some p) = elim (Bool-cases (ltz p.distance_m along)) [
  | inl ahead ↦ rw ahead (lez_total along p.distance_m (ground (arith, ahead)))
  | inr behind ↦ rw behind (lez_refl p.distance_m)
]

anchor-on :
    (t : Option Track) (along : Float) (policy : ProgressPolicy)
    → CommitsOn t (anchor t along policy)
unfolding CommitsOn anchor maxz lez
anchor-on none along policy = refl
anchor-on (some t) along policy = elim (Bool-cases (ltz t.committed_m along)) [
  | inl ahead ↦ rw ahead (lez_total along t.committed_m (ground (arith, ahead)))
  | inr behind ↦ rw behind (lez_refl t.committed_m)
]

-- The instance after an event at call `n`: of the same journey, with its other calls as they were,
-- and neither its progress nor the commit of its track further back.
pub record MovesOn (n : ℕ) (before after : Instance) : Type 0 where
  pub same_journey : after.journey ≡ before.journey
  pub others_same : (k : ℕ) → k ≢ n → get_elem? after.calls k ≡ get_elem? before.calls k
  pub reaches_on : ReachesOn before.progress after.progress
  pub commits_on : CommitsOn before.track after.track

note_point-MovesOn :
    (n : ℕ) (source : String) (before after : Instance)
    → MovesOn n before after
    → MovesOn n before (note_point n source after)
unfolding note_point with_track
note_point-MovesOn n source before after m = elim (Option-cases (source_track after source)) [
  | inl e ↦ rw (note_point, e) m
  | inr (track, e) ↦
      rw (note_point, e)
        (record {
          same_journey = m.same_journey;
          others_same = m.others_same;
          reaches_on = m.reaches_on;
          commits_on = m.commits_on;
        })
]

report_point-same :
    (o : Observation) (call : Call) (n : ℕ) (kind : EventKind) (merged : Interval)
    (moved j : Instance) (es : List Effect) (repeat : Bool)
    → report_point o call n kind merged moved repeat ≡ some (j, es)
    → moved ≡ j
unfolding report_point
report_point-same o call n kind merged moved j es true r = cc
report_point-same o call n kind merged moved j es false r =
    let (place, _, end) = >>=-eq-some (public_call moved n kind) _ r in cc

module _ (plan : Plan) (policy : ProgressPolicy) (rail : RailPolicy) where
  with_point-MovesOn :
      (o : Observation) (event : PointEvent) (n last : ℕ) (kind : EventKind) (state : CallState)
      (merged : Interval) (along : Float) (i : Instance)
      → MovesOn n i (with_point plan policy rail o event n last kind state merged along i)
  unfolding with_point OthersSame
  with_point-MovesOn o event n last kind state merged along i =
      note_point-MovesOn n o.source i _ (record {
        same_journey = refl;
        others_same = set_call-others n (with_event kind merged state) i.calls;
        reaches_on = progress_to-on plan along event.actual.lo i.progress;
        commits_on = anchor-on i.track along policy;
      })

  place_point-MovesOn :
      (trip : Trip) (o : Observation) (event : PointEvent) (n : ℕ) (i j : Instance)
      (es : List Effect)
      → place_point plan policy rail trip o event n i ≡ some (j, es)
      → MovesOn n i j
  unfolding place_point
  place_point-MovesOn trip o event n i j es r =
      let (call, _, r1) = >>=-eq-some (get_elem? trip.calls n) _ r in
      let (state, _, r2) = >>=-eq-some (get_elem? i.calls n) _ r1 in
      let last = length trip.calls - 1 in
      let kind = kind_of event call n last in
      let merged = merge (event_of kind state) event.actual true rail in
      let (along, _, r3) = >>=-eq-some (along_of plan n kind) _ r2 in
      let moved = with_point plan policy rail o event n last kind state merged along i in
      let on = with_point-MovesOn o event n last kind state merged along i in
      let repeat = same_interval (event_of kind state) merged in
      let there = report_point-same o call n kind merged moved j es repeat r3 in
      subst (MovesOn n i) there on

  -- A run that changes, changes by the observation's first point event and at one call: the call
  -- stands at or after the place where the source's points may start, it has one of the event's
  -- codes, and the event fits the times of the other calls within the tolerance. The run stays on
  -- its journey, its other calls stay as they were, and neither its progress nor the commit of its
  -- track moves back.
  pub apply_point-Forward :
      (index : IndexView) (trip : Trip) (o : Observation) (previous : Option SourceTrack)
      (i j : Instance) (es : List Effect)
      → apply_point plan policy rail index trip o previous i ≡ some (j, es)
      → (j ≡ i)
        ⊎ ((event : PointEvent) × (first as_point_event o ≡ some event)
            × (n : ℕ) × IsPlace index i trip
                (codes_of event previous)
                event.actual
                rail
                (start_call i previous)
                n
            × MovesOn n i j)
  unfolding apply_point resolve_point settle_point Found
  apply_point-Forward index trip o previous i j es = go (first as_point_event o) refl
    where
      point :
          (event : PointEvent)
          → first as_point_event o ≡ some event
          → (r : Option ℕ × Bool)
          → Found index i
              (codes_of event previous)
              event.actual
              rail
              (start_call i previous)
              (drop (start_call i previous) trip.calls)
              r
          → settle_point plan policy rail trip o event i r ≡ some (j, es)
          → (j ≡ i)
            ⊎ ((event : PointEvent) × (first as_point_event o ≡ some event)
                × (n : ℕ) × IsPlace index i trip
                    (codes_of event previous)
                    event.actual
                    rail
                    (start_call i previous)
                    n
                × MovesOn n i j)
      point event own (none, misfit) f = λ e. inl (cc)
      point event own (some n, misfit) (call, offset, q, there, coded, room) =
          elim (Bool-cases (n == 0 && event.standing)) [
            | inl waits ↦ rw waits (λ e. inl (cc))
            | inr goes ↦ rw goes (λ e. inr (
              event,
              own,
              n,
              record {
                call = call;
                offset = offset;
                is_from_start = q;
                is_call = there;
                has_code = coded;
                has_room = room;
              },
              place_point-MovesOn trip o event n i j es e,
            ))
          ]

      go :
          (f : Option PointEvent)
          → first as_point_event o ≡ f
          → apply_point plan policy rail index trip o previous i ≡ some (j, es)
          → (j ≡ i)
            ⊎ ((event : PointEvent) × (first as_point_event o ≡ some event)
                × (n : ℕ) × IsPlace index i trip
                    (codes_of event previous)
                    event.actual
                    rail
                    (start_call i previous)
                    n
                × MovesOn n i j)
      go none e r = let kept : some (i, []) ≡ some (j, es) = rw (apply_point, e) at r in inl (cc)
      go (some event) e r =
          point event e _
            (resolve_from-Found index i (codes_of event previous) event.actual rail
              (start_call i previous) (drop (start_call i previous) trip.calls))
            (rw (apply_point, e) at r)
