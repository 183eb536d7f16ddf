-- ===== src/Emit/Representing.antt =====
-- `representing` (src/obehy/realtime/emit/represent.py): every unbound vehicle stands, and every
-- journey that a vehicle is bound to is stood for.
use mathlib.Core.List.{Memᴰ}
use mathlib.Core.List.Memᴰ
use obehy.Prelude.{
  Bool, true, not, ◌≡◌, refl, sym, ◌∙◌, ap, Option, none, some, List, [], ◌∷◌, ◌++◌, ◌==◌, inl, inr,
  Bool-cases, or_else, arith,
}
use obehy.Prelude.Dict.{Dict, lookup, has, list_at, append_at}
use obehy.Prelude.Items.{
  contains-append, All-insert, Memᴰ-lookup, has-Memᴰ, into_sort_by, from_sort_by, All-Memᴰ,
  All-contains,
}
use obehy.Prelude.Lists.{All, contains}
use obehy.Prelude.Raises.{◌>>=◌}
use obehy.Prelude.Sort.{sort_by}
use obehy.Model.Journey.{VehicleId, vehicle_id_eq, JourneyKey, journey_key_eq, Binding}
use obehy.Model.State.{VehicleState, FeedState}
use obehy.Emit.Represent.{
  grouped, add_bound, vehicle_lt, vehicles_by_journey, stand_all, unbound_vehicles, representing,
}
use obehy.Emit.Stands.{Known, Stands}
use obehy.Emit.Leader.{standing_on-Stands}
use obehy.Emit.Grouping.{Groups, grouped-into, BoundTo, grouped-from}

module _ (state : FeedState)
    (own : (w : VehicleId) (c : VehicleState)
      → lookup w state.vehicles ≡ some c
      → c.vehicle ≡ w) where
  -- A journey with vehicles of the state, one at least.
  Group : List VehicleId → Type 0
  Group vs = Known state.vehicles vs × (v : VehicleId) × (contains v vs ≡ true)

  abbrev AllGroups : Groups → Type 0
  AllGroups = All (λ (x : JourneyKey × List VehicleId). Group x.1)

  Known-append :
      (vs : List VehicleId) (v : VehicleId)
      → Known state.vehicles vs
      → has v state.vehicles ≡ true
      → Known state.vehicles (vs ++ v ∷ [])
  Known-append [] v h k = (k, tt)
  Known-append (w ∷ vs) v h k = (h.0, Known-append vs v h.1 k)

  Known-list_at :
      (j : JourneyKey) (groups : Groups)
      → AllGroups groups
      → Known state.vehicles (list_at j groups)
  unfolding lookup Group
  Known-list_at j [] h = tt
  Known-list_at j ((k, vs) ∷ groups) h = elim (Bool-cases (k == j)) [
    | inl same ↦ rw same h.0.0
    | inr other ↦ rw other (Known-list_at j groups h.1)
  ]

  add_bound-AllGroups :
      (binding : Option Binding) (v : VehicleId) (groups : Groups)
      → has v state.vehicles ≡ true
      → AllGroups groups
      → AllGroups (add_bound binding v groups)
  unfolding add_bound append_at Group
  add_bound-AllGroups none v groups k h = h
  add_bound-AllGroups (some b) v groups k h =
      let vs = list_at b.journey groups in
      All-insert Group b.journey (vs ++ v ∷ []) groups
        (
          Known-append vs v (Known-list_at b.journey groups h) k,
          v,
          ground (arith, contains-append v vs (v ∷ []), vehicle_id_eq.same_iff v v),
        )
        h

  grouped-AllGroups :
      (items : Dict VehicleId VehicleState) (groups : Groups)
      → ((v : VehicleId) (c : VehicleState) → Memᴰ (v, c) items → has v state.vehicles ≡ true)
      → AllGroups groups
      → AllGroups (grouped items groups)
  unfolding grouped
  grouped-AllGroups [] groups k h = h
  grouped-AllGroups ((v, c) ∷ items) groups k h =
      grouped-AllGroups items (add_bound c.binding v groups) (λ w d m. k w d (Memᴰ.tail m))
        (add_bound-AllGroups c.binding v groups (k v c (Memᴰ.head refl)) h)

  -- What `stand_all` chooses of the groups: some of each, and nothing else.
  record StoodFor (groups : Groups) (out : List VehicleId) : Type 0 where
    each :
        (j : JourneyKey) (vs : List VehicleId)
        → Memᴰ (j, vs) groups
        → (w : VehicleId) × (contains w vs ≡ true) × (contains w out ≡ true)
    only :
        (w : VehicleId)
        → contains w out ≡ true
        → (j : JourneyKey) × (vs : List VehicleId) × Memᴰ (j, vs) groups × (contains w vs ≡ true)

  StoodFor-cons :
      (j : JourneyKey) (vs standing others : List VehicleId) (groups : Groups)
      → Stands vs standing
      → StoodFor groups others
      → StoodFor ((j, vs) ∷ groups) (standing ++ others)
  StoodFor-cons j vs standing others groups h k = record {
    each = λ i us m. elim (Memᴰ.cases_cons m) [
      | inl q ↦
          let (w, there) = h.one in
          let same : us ≡ vs = ap (λ (x : JourneyKey × List VehicleId). x.1) q in
          (w, rw same (h.from w there), ground (arith, contains-append w standing others, there))
      | inr later ↦
          let (w, there, stands) = k.each i us later in
          (w, there, ground (arith, contains-append w standing others, stands))
    ];
    only = λ w m. elim (Bool-cases (contains w standing)) [
      | inl stands ↦ (j, vs, Memᴰ.head refl, h.from w stands)
      | inr not_here ↦
          let (i, us, there, e) =
            k.only w (ground (arith, contains-append w standing others, not_here)) in
          (i, us, Memᴰ.tail there, e)
    ];
  }

  stand_all-StoodFor :
      (groups : Groups)
      → AllGroups groups
      → (out : List VehicleId) × (stand_all state groups ≡ some out) × StoodFor groups out
  unfolding stand_all Group
  stand_all-StoodFor [] h =
      ([], refl, record { each = λ j vs m. absurd (Memᴰ.not-nil m); only = λ w m. absurd (cc) })
  stand_all-StoodFor ((j, vs) ∷ groups) h =
      let (bound, standing, _, e, stands, _) =
        standing_on-Stands state.vehicles own vs h.0.0 h.0.1 h.0.2 (lookup j state.instances) in
      let (others, q, rest) = stand_all-StoodFor groups h.1 in
      (
        standing ++ others,
        rw (e, ◌>>=◌) (rw (q, ◌>>=◌) refl),
        StoodFor-cons j vs standing others groups stands rest,
      )

unbound-into :
    (items : Dict VehicleId VehicleState) (v : VehicleId) (c : VehicleState)
    → Memᴰ (v, c) items
    → c.binding ≡ none
    → contains v (unbound_vehicles items) ≡ true
unfolding unbound_vehicles
unbound-into [] v c m e = elim m [ ]
unbound-into ((w, d) ∷ items) v c (Memᴰ.head q) e =
    let k : w ≡ v = sym (ap (λ (x : VehicleId × VehicleState). x.0) q) in
    let same : d.binding ≡ none = sym (ap (λ (x : VehicleId × VehicleState). x.1.binding) q) ∙ e in
    ground (arith, same, vehicle_id_eq.same_iff w v, k)
unbound-into ((w, d) ∷ items) v c (Memᴰ.tail m) e = ground (arith, unbound-into items v c m e)

unbound-from :
    (items : Dict VehicleId VehicleState) (w : VehicleId)
    → contains w (unbound_vehicles items) ≡ true
    → has w items ≡ true
unfolding unbound_vehicles lookup
unbound-from [] w h = absurd (cc)
unbound-from ((v, c) ∷ items) w h = ground (arith, unbound-from items w)

list_at-some :
    (j : JourneyKey) (v : VehicleId) (groups : Groups)
    → contains v (list_at j groups) ≡ true
    → (vs : List VehicleId) × (lookup j groups ≡ some vs)
list_at-some j v groups h = go (lookup j groups) refl h
  where
    go :
        (o : Option (List VehicleId))
        → lookup j groups ≡ o
        → contains v (or_else o []) ≡ true
        → (vs : List VehicleId) × (lookup j groups ≡ some vs)
    go none q k = absurd (cc)
    go (some vs) q k = (vs, q)

module _ (le : VehicleId × VehicleState → VehicleId × VehicleState → Bool)
    (vehicles : Dict VehicleId VehicleState) where
  -- A vehicle in the group of a journey is bound to it.
  bound_of :
      (j : JourneyKey) (w : VehicleId) (vs : List VehicleId)
      → lookup j (grouped (sort_by le vehicles) []) ≡ some vs
      → contains w vs ≡ true
      → BoundTo vehicles j w
  unfolding lookup
  bound_of j w vs found there =
      let groups = grouped (sort_by le vehicles) [] in
      let h : contains w (list_at j groups) ≡ true = rw found there in
      elim (grouped-from (sort_by le vehicles) j w [] h) [
        | inl nothing ↦ absurd (cc)
        | inr (c, b, m, e, q) ↦ (c, b, from_sort_by le (w, c) vehicles m, e, q)
      ]

-- The vehicles that stand: every unbound one; for the journey of every bound one, some vehicle
-- that is bound to it; and only vehicles of the state.
pub record Represents (state : FeedState) (out : List VehicleId) : Type 0 where
  pub unbound :
      (v : VehicleId) (c : VehicleState)
      → Memᴰ (v, c) state.vehicles
      → c.binding ≡ none
      → contains v out ≡ true
  pub bound :
      (v : VehicleId) (c : VehicleState) (b : Binding)
      → Memᴰ (v, c) state.vehicles
      → c.binding ≡ some b
      → (w : VehicleId) × (contains w out ≡ true) × BoundTo state.vehicles b.journey w
  pub only : (w : VehicleId) → contains w out ≡ true → has w state.vehicles ≡ true

-- In a state whose vehicles stand under their own ids `representing` never raises: every unbound
-- vehicle stands, of the vehicles bound to a journey at least one, and no other vehicle.
pub representing-Represents :
    (state : FeedState)
    → ((w : VehicleId) (c : VehicleState) → lookup w state.vehicles ≡ some c → c.vehicle ≡ w)
    → (out : List VehicleId) × (representing state ≡ some out) × Represents state out
unfolding representing vehicles_by_journey Group
representing-Represents state own =
    let le = λ (x y : VehicleId × VehicleState). not (vehicle_lt y.0 x.0) in
    let items = sort_by le state.vehicles in
    let groups = grouped items [] in
    let known = λ (v : VehicleId) (c : VehicleState) (m : Memᴰ (v, c) items).
      has-Memᴰ v c state.vehicles (from_sort_by le (v, c) state.vehicles m) in
    let all = grouped-AllGroups state own items [] known tt in
    let (standing, e, stood) = stand_all-StoodFor state own groups all in
    (
      unbound_vehicles state.vehicles ++ standing,
      rw (e, ◌>>=◌) refl,
      record {
        unbound = λ v c m q. ground (
          arith,
          contains-append v (unbound_vehicles state.vehicles) standing,
          unbound-into state.vehicles v c m q,
        );
        bound = λ v c b m q.
            let there = grouped-into items v c b [] (into_sort_by le (v, c) state.vehicles m) q in
            let (vs, found) = list_at-some b.journey v groups there in
            let (w, in_group, stands) =
              stood.each b.journey vs (Memᴰ-lookup b.journey vs groups found) in
            (
              w,
              ground (arith, contains-append w (unbound_vehicles state.vehicles) standing, stands),
              bound_of le state.vehicles b.journey w vs found in_group,
            );
        only = λ w m. elim (Bool-cases (contains w (unbound_vehicles state.vehicles))) [
          | inl free ↦ unbound-from state.vehicles w free
          | inr bound ↦
              let (j, vs, there, e) = stood.only w (
                ground
                  (arith, bound, contains-append w (unbound_vehicles state.vehicles) standing)) in
              All-contains (λ v. has v state.vehicles ≡ true) w vs
                (All-Memᴰ (λ (x : JourneyKey × List VehicleId). Group state own x.1) groups all
                  (j, vs) there).0
                e
        ];
      },
    )
