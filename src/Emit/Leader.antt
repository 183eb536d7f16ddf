-- ===== src/Emit/Leader.antt =====
-- Which vehicle stands for a rail run, and the vehicles that stand for any journey.
use mathlib.Core.List.{Memᴰ}
use mathlib.Core.List.Memᴰ
use obehy.Prelude.{
  String, Bool, true, ◌≡◌, refl, ◌∙◌, ap, subst, Option, none, some, List, [], ◌∷◌, ◌==◌, string_eq,
  is_some, ◌⊎◌, inl, inr, Bool-cases, arith, ==_refl,
}
use obehy.Prelude.Dict.{Dict, lookup}
use obehy.Prelude.Lists.{contains, keep_if}
use obehy.Prelude.Raises.{◌>>=◌}
use obehy.Model.Journey.{VehicleId, vehicle_id_eq, PartSpan, Instance}
use obehy.Model.State.{VehicleState}
use obehy.Emit.Represent.{
  shown_source_of, distinct, states_of, run_position, run_position_of, first_state, or_option,
  is_led, lead_from, standing_in, standing_on,
}
use obehy.Emit.Stands.{sources, Known, known_state, OneSource, one_source-Chosen, Stands}

first_state-Memᴰ :
    (test : VehicleState → Bool) (cs : List VehicleState) (c : VehicleState)
    → first_state test cs ≡ some c
    → Memᴰ c cs
unfolding first_state
first_state-Memᴰ test [] c = λ e. absurd (cc)
first_state-Memᴰ test (d ∷ cs) c = elim (Bool-cases (test d)) [
  | inl found ↦ rw found (λ e. Memᴰ.head (cc))
  | inr other ↦ rw other (λ e. Memᴰ.tail (first_state-Memᴰ test cs c e))
]

keep_if-Memᴰ :
    (test : VehicleState → Bool) (cs : List VehicleState) (c : VehicleState)
    → Memᴰ c (keep_if test cs)
    → Memᴰ c cs
keep_if-Memᴰ test [] c = λ m. m
keep_if-Memᴰ test (d ∷ cs) c = elim (Bool-cases (test d)) [
  | inl found ↦ rw found (λ m. elim (Memᴰ.cases_cons m) [
    | inl e ↦ Memᴰ.head e
    | inr later ↦ Memᴰ.tail (keep_if-Memᴰ test cs c later)
  ])
  | inr other ↦ rw other (λ m. Memᴰ.tail (keep_if-Memᴰ test cs c m))
]

or_option-cases :
    (a b : Option VehicleState) (c : VehicleState)
    → or_option a b ≡ some c
    → (a ≡ some c) ⊎ (b ≡ some c)
or_option-cases none b c e = inr e
or_option-cases (some a) b c e = inl e

run_position-Memᴰ :
    (i : Instance) (bound : List VehicleState) (c : VehicleState)
    → run_position i bound ≡ some c
    → Memᴰ c bound
unfolding run_position
run_position-Memᴰ i bound c e =
    keep_if-Memᴰ (λ (v : VehicleState). is_some v.position) bound c (go (shown_source_of i) e)
  where
    placed : List VehicleState
    placed = keep_if (λ (v : VehicleState). is_some v.position) bound

    any : VehicleState → Bool
    any _ = true

    of_own : String → VehicleState → Bool
    of_own source v = v.vehicle.source == source

    go : (source : Option String) → run_position_of i source placed ≡ some c → Memᴰ c placed
    go none q = first_state-Memᴰ any placed c q
    go (some source) q =
        let led = is_led (lead_from i source) in
        let later = or_option (first_state (of_own source) placed) (first_state any placed) in
        elim (or_option-cases (first_state led placed) later c q) [
          | inl leads ↦ first_state-Memᴰ led placed c leads
          | inr rest ↦
              elim (or_option-cases (first_state (of_own source) placed) (first_state any placed) c
                rest) [
                  | inl same ↦ first_state-Memᴰ (of_own source) placed c same
                  | inr first ↦ first_state-Memᴰ any placed c first
                ]
        ]

only : (v u : VehicleId) → contains u (v ∷ []) ≡ true → v ≡ u
only v u h = ground (arith, vehicle_id_eq.same_iff v u)

module _ (known : Dict VehicleId VehicleState)
    (own : (w : VehicleId) (c : VehicleState) → lookup w known ≡ some c → c.vehicle ≡ w) where
  states_of-some :
      (vs : List VehicleId)
      → Known known vs
      → (bound : List VehicleState) × (states_of known vs ≡ some bound)
        × ((c : VehicleState) → Memᴰ c bound → contains c.vehicle vs ≡ true)
  unfolding states_of
  states_of-some [] h = ([], refl, λ c m. absurd (Memᴰ.not-nil m))
  states_of-some (v ∷ vs) h =
      let (c, q) = known_state known v h.0 in
      let (bound, e, sub) = states_of-some vs h.1 in
      (
        c ∷ bound,
        rw (q, ◌>>=◌) (rw (e, ◌>>=◌) refl),
        λ d m. elim (Memᴰ.cases_cons m) [
          | inl first ↦
              let same : d.vehicle ≡ v = ap (λ (x : VehicleState). x.vehicle) first ∙ own v c q in
              rw same (rw (==_refl v) refl)
          | inr later ↦ ground (arith, sub d later)
        ],
      )

  -- One vehicle stands for a rail run on which `run_position` finds one; the vehicles of one source
  -- for another journey that has an instance.
  pub data Share : Option Instance → List VehicleState → List VehicleId → Type 0 where
    unknown : {bound : List VehicleState} {out : List VehicleId} → Share none bound out
    by_source :
        {i : Instance} {bound : List VehicleState} {out : List VehicleId}
        → i.parts ≡ []
        → OneSource out
        → Share (some i) bound out
    leading :
        {i : Instance} {bound : List VehicleState} (c : VehicleState)
        → run_position i bound ≡ some c
        → Share (some i) bound (c.vehicle ∷ [])
    unplaced :
        {i : Instance} {bound : List VehicleState} {out : List VehicleId}
        → run_position i bound ≡ none
        → Share (some i) bound out

  module _ (vehicles : List VehicleId) (known_all : Known known vehicles) (v : VehicleId)
      (there : contains v vehicles ≡ true) where
    -- For a journey with a bound vehicle `representing` chooses, and never raises: some of the
    -- journey's vehicles, at least one.
    pub standing_on-Stands :
        (o : Option Instance)
        → (bound : List VehicleState) × (out : List VehicleId) × (states_of known vehicles
            ≡ some bound)
          × (standing_on o vehicles known ≡ some out)
          × Stands vehicles out
          × Share o bound out
    unfolding standing_on
    standing_on-Stands none =
        let (bound, e, sub) = states_of-some vehicles known_all in
        (bound, vehicles, e, refl, record { from = λ u k. k; one = (v, there) }, unknown)
    standing_on-Stands (some i) =
        let (bound, e, sub) = states_of-some vehicles known_all in
        go bound e sub i.parts refl (run_position i bound) refl
      where
        go :
            (bound : List VehicleState)
            → states_of known vehicles ≡ some bound
            → ((c : VehicleState) → Memᴰ c bound → contains c.vehicle vehicles ≡ true)
            → (parts : List PartSpan) → i.parts ≡ parts
            → (lead : Option VehicleState) → run_position i bound ≡ lead
            → (bound : List VehicleState) × (out : List VehicleId) × (states_of known vehicles
                ≡ some bound)
              × (standing_in parts i vehicles known ≡ some out)
              × Stands vehicles out
              × Share (some i) bound out
        go bound e sub [] q lead r =
            let chosen = distinct (sources vehicles) in
            let (out, found, stands, one) =
              one_source-Chosen i known vehicles known_all v there chosen refl in
            (bound, out, e, found, stands, by_source q one)
        go bound e sub (_ ∷ _) q none r = (
          bound,
          vehicles,
          e,
          rw (e, standing_in) (rw (r, ◌>>=◌) refl),
          record { from = λ u k. k; one = (v, there) },
          unplaced r,
        )
        go bound e sub (_ ∷ _) q (some c) r = (
          bound,
          c.vehicle ∷ [],
          e,
          rw (e, standing_in) (rw (r, ◌>>=◌) refl),
          record {
            from = λ u k.
                subst (λ (x : VehicleId). contains x vehicles ≡ true) (only c.vehicle u k)
                  (sub c (run_position-Memᴰ i bound c r));
            one = (c.vehicle, rw (==_refl c.vehicle) refl);
          },
          leading c r,
        )
