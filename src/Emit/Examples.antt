-- ===== src/Emit/Examples.antt =====
-- The pairings and the vehicles that stand at concrete inputs.
use obehy.Prelude.{ℕ, ◌≡◌, refl, ◌↔◌, true, none, some, List, [], ◌∷◌, arith}
use obehy.Prelude.Dict.{lookup}
use obehy.Prelude.Lists.{contains}
use obehy.Prelude.Sort.{sort_by}
use obehy.Prelude.Equal.{String_discrete}
use mathlib.Core.Bool.{decide}
use obehy.Model.Facts.{Float}
use obehy.Model.Journey.{VehicleId, vehicle_id_eq}
use obehy.Model.State.{VehicleState, VehicleStatus, FeedState}
use obehy.Core.Samples.{
  led_state, sample_binding, bus, tram, ten_past, sample_place, sample_journey,
}
use obehy.Emit.Pairing.{
  Report, Report-discrete, report_lt, report_eq, Pair, pair_eq, Settings, Fix, Evidence, Pairings,
}
use obehy.Emit.Tick.{observe, changes}
use obehy.Emit.Partners.{partners, cluster}
use obehy.Emit.Evidence.{AllSound, observe-AllSound}
use obehy.Emit.Stored.{Mirrors, write_all, observe-written}
use obehy.Emit.Cluster.{Joined, cluster-Joined, cluster-same}
use obehy.Emit.Represent.{representing}
use obehy.Emit.Representing.{Represents, representing-Represents}

abbrev settings : Settings
settings = record {
  distance_m = 50;
  apart_m = 500;
  max_fix_gap_s = 30000000;
  min_fixes = 2;
  confirm_s = 60000000;
  hold_s = 900000000;
}

abbrev duk : Report
duk = ("duk", "1")

abbrev plate : Report
plate = ("mpvnet", "2")

abbrev city : Report
city = ("city", "3")

abbrev evidence : Evidence
evidence = record {
  first_seen = 0;
  last_seen = 60000000;
  fixes = 2;
  journey = sample_journey;
  confirmed = true;
}

-- The bus of one source is paired with a report of each of two others.
abbrev paired : Pairings
paired = record { pairs = ((duk, plate), evidence) ∷ ((city, duk), evidence) ∷ []; changed = [] }

abbrev beside : Float × Float → Float × Float → ℕ
beside a b = 20

abbrev fix_of : Report → Fix
fix_of report = record {
  report = report;
  journey = sample_journey;
  lon = sample_place.lon;
  lat = sample_place.lat;
  at = 70000000;
}

empty : Pairings
empty = record { pairs = []; changed = [] }

empty-AllSound : AllSound settings empty
unfolding empty lookup
empty-AllSound pair e h = absurd (cc)

observe-AllSound_example :
    AllSound settings
      (observe settings beside (λ j. j.key) (fix_of duk ∷ fix_of plate ∷ []) 70000000 empty).0
observe-AllSound_example =
    observe-AllSound settings beside (λ j. j.key) (fix_of duk ∷ fix_of plate ∷ []) 70000000 empty
      empty-AllSound

empty-Mirrors : Mirrors [] empty
unfolding empty lookup
empty-Mirrors pair = refl

observe-written_example :
    let q =
      (observe settings beside (λ j. j.key) (fix_of duk ∷ fix_of plate ∷ []) 70000000 empty).0 in
    ((pair : Pair) → lookup pair (write_all (changes q).1 []) ≡ lookup pair q.pairs)
    × Mirrors (write_all (changes q).1 []) (changes q).0
observe-written_example =
    observe-written settings beside (λ j. j.key) (fix_of duk ∷ fix_of plate ∷ []) 70000000 empty []
      empty-Mirrors

cluster-Joined_example :
    (out : List Report) × (cluster paired plate ≡ some out)
    × ((y : Report) → (contains y out ≡ true) ↔ Joined paired plate y)
cluster-Joined_example = cluster-Joined paired plate

of_plate : cluster paired plate ≡ some (city ∷ duk ∷ plate ∷ [])
unfolding cluster partners sort_by decide Report-discrete String_discrete report_lt
of_plate = refl

of_city : cluster paired city ≡ some (city ∷ duk ∷ plate ∷ [])
unfolding cluster partners sort_by decide Report-discrete String_discrete report_lt
of_city = refl

cluster-same_example :
    contains duk (city ∷ duk ∷ plate ∷ []) ≡ contains duk (city ∷ duk ∷ plate ∷ [])
cluster-same_example =
    cluster-same paired plate city (city ∷ duk ∷ plate ∷ []) (city ∷ duk ∷ plate ∷ []) of_plate
      of_city (ground (arith, report_eq.same_iff city city)) duk

abbrev seen : VehicleId → VehicleState
seen vehicle = record {
  vehicle = vehicle;
  feed = led_state.feed;
  status = VehicleStatus.running;
  last_seen = ten_past;
  trip_key = none;
  binding = some sample_binding;
  position = some sample_place;
  position_at = some ten_past;
  reason = none;
  episode = none;
  facts = [];
  since = none;
}

abbrev two_seen : FeedState
two_seen = record led_state { vehicles = (bus, seen bus) ∷ (tram, seen tram) ∷ [] }

two_seen-own :
    (w : VehicleId) (c : VehicleState) → lookup w two_seen.vehicles ≡ some c → c.vehicle ≡ w
unfolding lookup
two_seen-own w c h = ground (arith, vehicle_id_eq.same_iff bus w, vehicle_id_eq.same_iff tram w)

representing-Represents_example :
    (out : List VehicleId) × (representing two_seen ≡ some out) × Represents two_seen out
representing-Represents_example = representing-Represents two_seen two_seen-own
