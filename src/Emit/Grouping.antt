-- ===== src/Emit/Grouping.antt =====
-- The vehicles of each journey (`vehicles_by_journey` of src/obehy/realtime/emit/represent.py).
use mathlib.Core.List.{Memᴰ}
use obehy.Prelude.{
  true, ◌≡◌, refl, ap, Option, none, some, List, [], ◌∷◌, ◌++◌, ◌⊎◌, inl, inr, Bool-cases, arith,
}
use obehy.Prelude.Dict.{Dict, list_at, list_at-append_at}
use obehy.Prelude.Items.{contains-append}
use obehy.Prelude.Lists.{contains}
use obehy.Model.Journey.{VehicleId, vehicle_id_eq, JourneyKey, journey_key_eq, Binding}
use obehy.Model.State.{VehicleState}
use obehy.Emit.Represent.{grouped, add_bound}

abbrev pub Groups : Type 0
Groups = Dict JourneyKey (List VehicleId)

list_at-add_bound :
    (binding : Option Binding) (b : Binding) (v : VehicleId) (groups : Groups)
    → binding ≡ some b
    → list_at b.journey (add_bound binding v groups) ≡ list_at b.journey groups ++ v ∷ []
unfolding add_bound
list_at-add_bound none b v groups e = absurd (cc)
list_at-add_bound (some c) b v groups e = ground (
  arith,
  list_at-append_at c.journey b.journey v groups,
  journey_key_eq.same_iff c.journey b.journey,
  e,
)

-- A vehicle in a group stays there.
add_bound-kept :
    (binding : Option Binding) (j : JourneyKey) (v w : VehicleId) (groups : Groups)
    → contains w (list_at j groups) ≡ true
    → contains w (list_at j (add_bound binding v groups)) ≡ true
unfolding add_bound
add_bound-kept none j v w groups h = h
add_bound-kept (some b) j v w groups h =
    ground
      (arith, list_at-append_at b.journey j v groups, contains-append w (list_at j groups) (v ∷ []))

grouped-kept :
    (items : Dict VehicleId VehicleState) (j : JourneyKey) (w : VehicleId) (groups : Groups)
    → contains w (list_at j groups) ≡ true
    → contains w (list_at j (grouped items groups)) ≡ true
unfolding grouped
grouped-kept [] j w groups h = h
grouped-kept ((v, c) ∷ items) j w groups h =
    grouped-kept items j w (add_bound c.binding v groups) (add_bound-kept c.binding j v w groups h)

-- A bound vehicle is in the group of its journey.
pub grouped-into :
    (items : Dict VehicleId VehicleState) (v : VehicleId) (c : VehicleState) (b : Binding)
    (groups : Groups)
    → Memᴰ (v, c) items
    → c.binding ≡ some b
    → contains v (list_at b.journey (grouped items groups)) ≡ true
unfolding grouped
grouped-into [] v c b groups m e = elim m [ ]
grouped-into ((w, d) ∷ items) v c b groups (Memᴰ.tail m) e =
    grouped-into items v c b (add_bound d.binding w groups) m e
grouped-into ((w, d) ∷ items) v c b groups (Memᴰ.head q) e =
    grouped-kept items b.journey v (add_bound d.binding w groups) (
      rw (list_at-add_bound d.binding b w groups (cc)) (
        ground (
          arith,
          contains-append v (list_at b.journey groups) (w ∷ []),
          vehicle_id_eq.same_iff w v,
          ap (λ (x : VehicleId × VehicleState). x.0) q,
        )))

-- A vehicle in a group is bound to the group's journey.
abbrev pub BoundTo : Dict VehicleId VehicleState → JourneyKey → VehicleId → Type 0
BoundTo items j w =
    (c : VehicleState) × (b : Binding) × Memᴰ (w, c) items × (c.binding ≡ some b) × (b.journey ≡ j)

add_bound-from :
    (binding : Option Binding) (j : JourneyKey) (v w : VehicleId) (groups : Groups)
    → contains w (list_at j (add_bound binding v groups)) ≡ true
    → (contains w (list_at j groups) ≡ true)
      ⊎ (b : Binding) × (binding ≡ some b) × (b.journey ≡ j) × (v ≡ w)
unfolding add_bound
add_bound-from none j v w groups h = inl h
add_bound-from (some b) j v w groups h = elim (Bool-cases (contains w (list_at j groups))) [
  | inl there ↦ inl there
  | inr new ↦ inr (
    b,
    refl,
    ground (
      arith,
      new,
      list_at-append_at b.journey j v groups,
      contains-append w (list_at j groups) (v ∷ []),
      journey_key_eq.same_iff b.journey j,
    ),
    ground (
      arith,
      new,
      list_at-append_at b.journey j v groups,
      contains-append w (list_at j groups) (v ∷ []),
      vehicle_id_eq.same_iff v w,
    ),
  )
]

pub grouped-from :
    (items : Dict VehicleId VehicleState) (j : JourneyKey) (w : VehicleId) (groups : Groups)
    → contains w (list_at j (grouped items groups)) ≡ true
    → (contains w (list_at j groups) ≡ true) ⊎ BoundTo items j w
unfolding grouped
grouped-from [] j w groups h = inl h
grouped-from ((v, c) ∷ items) j w groups h =
    elim (grouped-from items j w (add_bound c.binding v groups) h) [
      | inr (d, b, m, e, q) ↦ inr (d, b, Memᴰ.tail m, e, q)
      | inl k ↦ elim (add_bound-from c.binding j v w groups k) [
        | inl old ↦ inl old
        | inr (b, e, q, same) ↦ inr (c, b, Memᴰ.head (cc same), e, q)
      ]
    ]
