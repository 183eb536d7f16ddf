-- ===== src/Emit/Stands.antt =====
-- Which vehicles stand for one journey: some of its own, of one source, and a rail run's leader.
use obehy.Prelude.{
  String, Bool, true, ◌≡◌, refl, sym, ◌∙◌, ap, subst, Option, none, some, List, [], ◌∷◌, map, ◌==◌,
  string_eq, is_some, if◌then◌else◌, inl, inr, Bool-cases, arith, ==_refl, ==→eq,
}
use obehy.Prelude.Dict.{Dict, lookup, has}
use obehy.Prelude.Items.{contains-keep_if}
use obehy.Prelude.Lists.{All, contains}
use obehy.Prelude.Raises.{Raises, ◌>>=◌}
use obehy.Prelude.Sort.{contains-sort_by}
use obehy.Model.Journey.{VehicleId, vehicle_id_eq, Instance}
use obehy.Model.State.{VehicleState}
use obehy.Emit.Represent.{
  shown_source_of, distinct, least, placed_sources, chosen_source, sorted_texts, of_source,
  one_source,
}

contains-distinct : (s : String) (ss : List String) → contains s (distinct ss) ≡ contains s ss
unfolding distinct
contains-distinct s [] = refl
contains-distinct s (t ∷ ts) = ground (arith, string_eq.same_iff t s, contains-distinct s ts)

least-contains : (s : String) (ts : List String) → contains (least s ts) (s ∷ ts) ≡ true
unfolding least
least-contains s [] = ground (arith, string_eq.same_iff s s)
least-contains s (t ∷ ts) = ground (arith, least-contains s ts, least-contains t ts)

abbrev pub sources : List VehicleId → List String
sources = map (λ (v : VehicleId). v.source)

module _ (known : Dict VehicleId VehicleState) where
  abbrev pub Known : List VehicleId → Type 0
  Known vs = All (λ v. has v known ≡ true) vs

  pub known_state :
      (v : VehicleId) → has v known ≡ true → (c : VehicleState) × (lookup v known ≡ some c)
  known_state v h = go (lookup v known) refl h
    where
      go :
          (o : Option VehicleState)
          → lookup v known ≡ o
          → is_some o ≡ true
          → (c : VehicleState) × (lookup v known ≡ some c)
      go none q k = absurd (cc)
      go (some c) q k = (c, q)

  placed_sources-some :
      (vs : List VehicleId)
      → Known vs
      → (placed : List String) × (placed_sources known vs ≡ some placed)
        × ((s : String) → contains s placed ≡ true → contains s (sources vs) ≡ true)
  unfolding placed_sources
  placed_sources-some [] h = ([], refl, λ s k. k)
  placed_sources-some (v ∷ vs) h =
      let (c, q) = known_state v h.0 in
      let (placed, e, sub) = placed_sources-some vs h.1 in
      (
        if is_some c.position then v.source ∷ placed else placed,
        rw (q, ◌>>=◌) (rw (e, ◌>>=◌) refl),
        λ s k. ground (arith, sub s, string_eq.same_iff v.source s),
      )

source_in :
    (v : VehicleId) (vs : List VehicleId)
    → contains v vs ≡ true
    → contains v.source (sources vs) ≡ true
source_in v [] h = absurd (cc)
source_in v (w ∷ vs) h = elim (Bool-cases (w == v)) [
  | inl same ↦
      let e : w.source ≡ v.source = ap (λ (x : VehicleId). x.source) (==→eq w v same) in
      ground (arith, e, string_eq.same_iff w.source v.source)
  | inr other ↦ ground (arith, other, source_in v vs)
]

source_of :
    (s : String) (vs : List VehicleId)
    → contains s (sources vs) ≡ true
    → (v : VehicleId) × (contains v vs ≡ true) × (v.source == s ≡ true)
source_of s [] h = absurd (cc)
source_of s (w ∷ vs) h = elim (Bool-cases (w.source == s)) [
  | inl same ↦ (w, rw (==_refl w) refl, same)
  | inr other ↦
      let (v, there, e) = source_of s vs (ground (arith, other)) in (v, ground (arith, there), e)
]

chosen_source-contains :
    (shown : Option String) (placed : List String) (other : String) (all : List String)
    → contains other all ≡ true
    → ((s : String) → contains s placed ≡ true → contains s all ≡ true)
    → contains (chosen_source shown placed other) all ≡ true
unfolding chosen_source
chosen_source-contains none [] other all h k = h
chosen_source-contains none (s ∷ placed) other all h k = k s (rw (==_refl s) refl)
chosen_source-contains (some c) [] other all h k = h
chosen_source-contains (some c) (s ∷ placed) other all h k =
    elim (Bool-cases (contains c (s ∷ placed))) [
      | inl there ↦ rw there (k c there)
      | inr away ↦ rw away (k s (rw (==_refl s) refl))
    ]

-- Some of the vehicles, one at least.
pub record Stands (vehicles out : List VehicleId) : Type 0 where
  pub from : (v : VehicleId) → contains v out ≡ true → contains v vehicles ≡ true
  pub one : (v : VehicleId) × (contains v out ≡ true)

abbrev pub OneSource : List VehicleId → Type 0
OneSource out =
    (v w : VehicleId) → contains v out ≡ true → contains w out ≡ true → v.source ≡ w.source

module _ (i : Instance) (known : Dict VehicleId VehicleState) (vehicles : List VehicleId)
    (known_all : Known known vehicles) (v : VehicleId) (there : contains v vehicles ≡ true) where
  abbrev Chosen : Raises (List VehicleId) → Type 0
  Chosen r = (out : List VehicleId) × (r ≡ some out) × Stands vehicles out × OneSource out

  of_source-Stands :
      (s : String)
      → contains s (sources vehicles) ≡ true
      → Stands vehicles (of_source s vehicles) × OneSource (of_source s vehicles)
  unfolding of_source
  of_source-Stands s h =
      let p : VehicleId → Bool = λ w. w.source == s in
      let (w, in_vehicles, same) = source_of s vehicles h in
      (
        record {
          from = λ u k. ground (arith, contains-keep_if p u vehicles);
          one = (w, ground (arith, contains-keep_if p w vehicles, in_vehicles, same));
        },
        λ u w k l. ground (
          arith,
          contains-keep_if p u vehicles,
          contains-keep_if p w vehicles,
          string_eq.same_iff u.source s,
          string_eq.same_iff w.source s,
        ),
      )

  pub one_source-Chosen :
      (ds : List String) → distinct (sources vehicles) ≡ ds → Chosen (one_source i vehicles known)
  unfolding one_source
  one_source-Chosen [] e =
      let h : contains v.source (distinct (sources vehicles)) ≡ true =
        contains-distinct v.source (sources vehicles) ∙ source_in v vehicles there in
      absurd (cc (subst (λ (l : List String). contains v.source l ≡ true) e h))
  one_source-Chosen (s ∷ []) e =
      let all = λ (w : VehicleId) (k : contains w vehicles ≡ true).
        subst (λ (l : List String). contains w.source l ≡ true) e
          (contains-distinct w.source (sources vehicles) ∙ source_in w vehicles k) in
      (
        vehicles,
        rw (e, one_source) refl,
        record { from = λ u k. k; one = (v, there) },
        λ u w k l.
            ground (
              arith,
              string_eq.same_iff s u.source,
              string_eq.same_iff s w.source,
              all u k,
              all w l,
            ),
      )
  one_source-Chosen (s ∷ t ∷ rest) e =
      let (placed, q, sub) = placed_sources-some known vehicles known_all in
      let c =
        chosen_source (shown_source_of i) (sorted_texts (distinct placed)) (least s (t ∷ rest)) in
      let first : contains (least s (t ∷ rest)) (sources vehicles) ≡ true =
        sym (contains-distinct (least s (t ∷ rest)) (sources vehicles))
        ∙ subst (λ (l : List String). contains (least s (t ∷ rest)) l ≡ true) (sym e)
            (least-contains s (t ∷ rest)) in
      let among =
        chosen_source-contains (shown_source_of i) (sorted_texts (distinct placed))
          (least s (t ∷ rest)) (sources vehicles) first
          (λ u k. sub u (
            sym (contains-distinct u placed)
            ∙ (sym (contains-sort_by _ u (distinct placed)) ∙ k))) in
      let (stands, one) = of_source-Stands c among in
      (of_source c vehicles, rw (e, one_source) (rw (q, ◌>>=◌) refl), stands, one)
