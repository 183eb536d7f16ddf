-- ===== src/Core/Kept.antt =====
-- A move onto a new release keeps what was observed at each place that the new trip serves.
use obehy.Prelude.{
  ◌≡◌, refl, sym, ap, subst, string_eq, nat_eq, Option, none, some, List, [], ◌∷◌, map, arith,
}
use obehy.Prelude.Dict.{lookup, filter_map, lookup-filter_map_cases}
use obehy.Prelude.Raises.{>>=-eq-some}
use obehy.Prelude.Sort.{sort_by}
use obehy.Model.Journey.{JourneyKey, journey_key_eq, CallState, Instance}
use obehy.Model.State.{FeedState}
use obehy.Model.Effects.{Effect}
use obehy.Index.{IndexView, Trip}
use obehy.Core.Binding.{call_states}
use obehy.Core.Rebase.{
  rebase, rebased, moved_instance, moved_call, find_place, same_place, resolve, all_snapshots,
  before,
}

-- The call is one of the new trip, at the same place, with what was observed at that place before,
-- if it was served before.
pub record KeepsPlace (index : IndexView) (old : List CallState) (fresh moved : CallState)
    : Type 0 where
  pub sequence : moved.sequence ≡ fresh.sequence
  pub location : moved.location_id ≡ fresh.location_id
  pub visit : moved.visit_n ≡ fresh.visit_n
  pub passenger : moved.passenger ≡ fresh.passenger
  pub observed :
      (c : CallState)
      → find_place index old fresh ≡ some c
      → (moved.arrival ≡ c.arrival)
        × (moved.departure ≡ c.departure)
        × (moved.passed_arrival ≡ c.passed_arrival)
        × (moved.passed_departure ≡ c.passed_departure)
        × (moved.platform ≡ c.platform)

-- Call by call.
unfoldable pub KeepsPlaces : IndexView → List CallState → List CallState → List CallState → Type 0
KeepsPlaces index old [] [] = Unit
KeepsPlaces index old (f ∷ fs) (m ∷ ms) = KeepsPlace index old f m × KeepsPlaces index old fs ms
KeepsPlaces index old _ _ = ⊥

module _ (index : IndexView) where
  find_place-same :
      (old : List CallState) (fresh c : CallState)
      → find_place index old fresh ≡ some c
      → (c.location_id ≡ fresh.location_id) × (c.visit_n ≡ fresh.visit_n)
  unfolding find_place same_place
  find_place-same [] fresh c e = absurd (ground arith)
  find_place-same (d ∷ ds) fresh c e = ground (
    arith,
    string_eq.same_iff d.location_id fresh.location_id,
    nat_eq.same_iff d.visit_n fresh.visit_n,
    find_place-same ds fresh c,
  )

  moved_call-KeepsPlace :
      (old : List CallState) (fresh : CallState)
      → KeepsPlace index old fresh (moved_call index old fresh)
  unfolding moved_call
  moved_call-KeepsPlace old fresh = go (find_place index old fresh) refl
    where
      go :
          (x : Option CallState)
          → find_place index old fresh ≡ x
          → KeepsPlace index old fresh (moved_call index old fresh)
      go none q =
          rw (moved_call, q)
            (record {
              sequence = refl;
              location = refl;
              visit = refl;
              passenger = refl;
              observed = λ c e. let p : none ≡ some c = rw q at e in absurd (cc);
            })
      go (some d) q =
          let (l, v) = find_place-same old fresh d q in
          rw (moved_call, q)
            (record {
              sequence = refl;
              location = l;
              visit = v;
              passenger = refl;
              observed = λ c e.
                  let p : some d ≡ some c = rw q at e in
                  let same : d ≡ c = cc in
                  (
                    ap (λ (x : CallState). x.arrival) same,
                    ap (λ (x : CallState). x.departure) same,
                    ap (λ (x : CallState). x.passed_arrival) same,
                    ap (λ (x : CallState). x.passed_departure) same,
                    ap (λ (x : CallState). x.platform) same,
                  );
            })

  map-KeepsPlaces :
      (old fresh : List CallState) → KeepsPlaces index old fresh (map (moved_call index old) fresh)
  unfolding KeepsPlaces
  map-KeepsPlaces old [] = tt
  map-KeepsPlaces old (f ∷ fs) = (moved_call-KeepsPlace old f, map-KeepsPlaces old fs)

  rebased-KeepsPlaces :
      (j : JourneyKey) (i k : Instance)
      → rebased index j i ≡ some k
      → (trip : Trip) × (resolve index j ≡ some trip)
        × (k.trip_id ≡ trip.trip_id)
        × KeepsPlaces index i.calls (call_states trip) k.calls
  unfolding rebased moved_instance
  rebased-KeepsPlaces j i k e = go (resolve index j) refl
    where
      go :
          (x : Option Trip)
          → resolve index j ≡ x
          → (trip : Trip) × (resolve index j ≡ some trip)
            × (k.trip_id ≡ trip.trip_id)
            × KeepsPlaces index i.calls (call_states trip) k.calls
      go none q = absurd (ground arith)
      go (some trip) q =
          let made : some (moved_instance index j trip i) ≡ some k = rw (rebased, q) at e in
          let same : moved_instance index j trip i ≡ k = cc in
          (
            trip,
            q,
            ap (λ (x : Instance). x.trip_id) (sym same),
            subst (λ (x : Instance). KeepsPlaces index i.calls (call_states trip) x.calls) same
                (map-KeepsPlaces i.calls (call_states trip)),
          )

  -- After a move onto a new release each instance that is left was there before, its journey runs
  -- there, and it is on the trip that runs: it has that trip's calls, in order, and a call at a
  -- place that was served before keeps the events and the platform that were observed there.
  pub rebase-KeepsPlaces :
      (s t : FeedState) (es : List Effect) (j : JourneyKey) (k : Instance)
      → rebase index s ≡ some (t, es)
      → lookup j t.instances ≡ some k
      → (i : Instance) × (lookup j s.instances ≡ some i)
        × (trip : Trip) × (resolve index j ≡ some trip)
        × (k.trip_id ≡ trip.trip_id)
        × KeepsPlaces index i.calls (call_states trip) k.calls
  unfolding rebase
  rebase-KeepsPlaces s t es j k e l =
      let (_, _, end) =
        >>=-eq-some (all_snapshots index (sort_by (before index) s.instances)) _ e in
      let instances : t.instances ≡ filter_map (rebased index) s.instances = ground arith in
      let (i, there, moved) =
        lookup-filter_map_cases (rebased index) j s.instances k (rw instances at l) in
      let (trip, runs, on_trip, keeps) = rebased-KeepsPlaces j i k moved in
      (i, there, trip, runs, on_trip, keeps)
