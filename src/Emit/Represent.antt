-- ===== src/Emit/Represent.antt =====
-- Which vehicles stand for their journey (src/obehy/realtime/emit/represent.py). A set of
-- vehicles or of sources is a list; a key that is not in the state raises.
use obehy.Prelude.{
  String, Bool, true, false, not, ◌&&◌, ◌||◌, Option, none, some, List, [], ◌∷◌, ◌++◌, map, ◌==◌,
  string_eq, is_some, if◌then◌else◌,
}
use obehy.Prelude.Dict.{Dict, lookup, append_at}
use obehy.Prelude.Lists.{contains, keep_if}
use obehy.Prelude.Raises.{Raises, ◌>>=◌}
use obehy.Prelude.Sort.{sort_by}
use obehy.Prelude.Texts.{str_lt}
use obehy.Model.Journey.{
  VehicleId, vehicle_id_eq, JourneyKey, journey_key_eq, Binding, Lead, Published, PartSpan,
  Instance,
}
use obehy.Model.State.{VehicleState, FeedState}
use obehy.Fusion.{source_track, track_lead}

-- `a or b` of optional texts
abbrev pub or_text : Option String → Option String → Option String
or_text none other = other
or_text (some s) other = if s == "" then other else some s

-- `_shown_source`
unfoldable pub shown_source_of : Instance → Option String
shown_source_of i = or_text i.shown_source i.track_source

lead_or_track : Option Lead → Option Lead → String → Option Lead
lead_or_track none track source = track
lead_or_track (some lead) track source =
    if not (lead.vehicle.source == source) then track else some lead

-- `_lead`
unfoldable pub lead_from : Instance → String → Option Lead
unfolding lead_or_track
lead_from i source = lead_or_track i.lead (track_lead (source_track i source)) source

leads_or_only : Option Lead → VehicleId → Bool
leads_or_only none vehicle = true
leads_or_only (some lead) vehicle = lead.vehicle == vehicle

is_shown : Option String → String → Bool
is_shown none source = false
is_shown (some s) source = source == s

shown_on : Instance → VehicleId → Option Published
unfolding leads_or_only is_shown
shown_on i vehicle =
    if i.freshness.stale || not (is_shown (shown_source_of i) vehicle.source)
    then none
    else if leads_or_only (lead_from i vehicle.source) vehicle
    then i.published
    else none

-- `shown`
unfoldable pub shown : Option Instance → VehicleId → Option Published
unfolding shown_on
shown none vehicle = none
shown (some i) vehicle = shown_on i vehicle

-- The first state that passes a test.
unfoldable pub first_state : (VehicleState → Bool) → List VehicleState → Option VehicleState
first_state test [] = none
first_state test (v ∷ vs) = if test v then some v else first_state test vs

unfoldable pub is_led : Option Lead → VehicleState → Bool
is_led none v = false
is_led (some lead) v = v.vehicle == lead.vehicle

abbrev pub or_option : Option VehicleState → Option VehicleState → Option VehicleState
or_option none other = other
or_option (some v) other = some v

unfoldable pub run_position_of : Instance → Option String → List VehicleState → Option VehicleState
unfolding is_led
run_position_of i none placed = first_state (λ _. true) placed
run_position_of i (some source) placed =
    or_option (first_state (is_led (lead_from i source)) placed) (
      or_option (first_state (λ v. v.vehicle.source == source) placed)
        (first_state (λ _. true) placed))

-- `run_position`
unfoldable pub run_position : Instance → List VehicleState → Option VehicleState
unfolding run_position_of
run_position i bound =
    run_position_of i (shown_source_of i) (keep_if (λ (v : VehicleState). is_some v.position) bound)

-- The items of a set.
unfoldable pub distinct : List String → List String
distinct [] = []
distinct (s ∷ ss) = let rest = distinct ss in if contains s rest then rest else s ∷ rest

-- `min` of the texts `s, …`
unfoldable pub least : String → List String → String
least s [] = s
least s (t ∷ ts) = least (if str_lt t s then t else s) ts

-- The sources of the vehicles that have a position.
unfoldable pub placed_sources : Dict VehicleId VehicleState → List VehicleId → Raises (List String)
placed_sources known [] = some []
placed_sources known (v ∷ vs) = lookup v known >>= λ state. placed_sources known vs >>= λ rest.
    some (if is_some state.position then v.source ∷ rest else rest)

-- The source chosen: the shown one if a vehicle of it has a position, else the first with one.
unfoldable pub chosen_source : Option String → List String → String → String
chosen_source none [] other = other
chosen_source none (s ∷ placed) other = s
chosen_source (some shown) [] other = other
chosen_source (some shown) (s ∷ placed) other = if contains shown (s ∷ placed) then shown else s

abbrev pub sorted_texts : List String → List String
sorted_texts = sort_by (λ s t. not (str_lt t s))

unfoldable pub of_source : String → List VehicleId → List VehicleId
of_source source = keep_if (λ (v : VehicleId). v.source == source)

-- `one_source`
unfoldable pub one_source :
    Instance → List VehicleId → Dict VehicleId VehicleState → Raises (List VehicleId)
unfolding chosen_source of_source
one_source i vehicles known = elim (distinct (map (λ (v : VehicleId). v.source) vehicles)) [
  | [] ↦ some vehicles
  | _ ∷ [] ↦ some vehicles
  | s ∷ t ∷ rest ↦ placed_sources known vehicles >>= λ placed. some (
      of_source
        (chosen_source (shown_source_of i) (sorted_texts (distinct placed)) (least s (t ∷ rest)))
        vehicles)
]

-- The order of `VehicleId`.
unfoldable pub vehicle_lt : VehicleId → VehicleId → Bool
vehicle_lt v w =
    str_lt v.source w.source
    || v.source == w.source && str_lt v.source_vehicle_id w.source_vehicle_id

unfoldable pub add_bound :
    Option Binding → VehicleId → Dict JourneyKey (List VehicleId) → Dict JourneyKey (List VehicleId)
unfolding append_at
add_bound none v groups = groups
add_bound (some b) v groups = append_at b.journey v groups

unfoldable pub grouped :
    Dict VehicleId VehicleState
    → Dict JourneyKey (List VehicleId)
    → Dict JourneyKey (List VehicleId)
unfolding add_bound
grouped [] groups = groups
grouped ((v, state) ∷ rest) groups = grouped rest (add_bound state.binding v groups)

-- `vehicles_by_journey`
unfoldable pub vehicles_by_journey : FeedState → Dict JourneyKey (List VehicleId)
unfolding grouped vehicle_lt
vehicles_by_journey state = grouped (sort_by (λ x y. not (vehicle_lt y.0 x.0)) state.vehicles) []

unfoldable pub states_of : Dict VehicleId VehicleState → List VehicleId → Raises (List VehicleState)
states_of known [] = some []
states_of known (v ∷ vs) =
    lookup v known >>= λ state. states_of known vs >>= λ rest. some (state ∷ rest)

abbrev pub leader : Option VehicleState → List VehicleId → List VehicleId
leader none vehicles = vehicles
leader (some v) vehicles = v.vehicle ∷ []

-- A rail run has its leader; another journey the vehicles of one source.
unfoldable pub standing_in :
    List PartSpan
    → Instance
    → List VehicleId
    → Dict VehicleId VehicleState
    → Raises (List VehicleId)
unfolding run_position one_source states_of
standing_in [] i vehicles known = one_source i vehicles known
standing_in (_ ∷ _) i vehicles known =
    states_of known vehicles >>= λ bound. some (leader (run_position i bound) vehicles)

unfoldable pub standing_on :
    Option Instance → List VehicleId → Dict VehicleId VehicleState → Raises (List VehicleId)
unfolding standing_in
standing_on none vehicles known = some vehicles
standing_on (some i) vehicles known = standing_in i.parts i vehicles known

unfoldable pub unbound_vehicles : Dict VehicleId VehicleState → List VehicleId
unbound_vehicles [] = []
unbound_vehicles ((v, state) ∷ rest) =
    let others = unbound_vehicles rest in if is_some state.binding then others else v ∷ others

-- The loop of `representing`.
unfoldable pub stand_all : FeedState → Dict JourneyKey (List VehicleId) → Raises (List VehicleId)
unfolding standing_on
stand_all state [] = some []
stand_all state ((journey, vehicles) ∷ rest) =
    standing_on (lookup journey state.instances) vehicles state.vehicles >>= λ standing.
    stand_all state rest >>= λ others. some (standing ++ others)

-- `representing`
unfoldable pub representing : FeedState → Raises (List VehicleId)
unfolding stand_all unbound_vehicles vehicles_by_journey
representing state = stand_all state (vehicles_by_journey state) >>= λ standing.
    some (unbound_vehicles state.vehicles ++ standing)
