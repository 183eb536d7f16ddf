-- ===== src/Index.antt =====
-- The release index that the core reads (src/obehy/realtime/index.py): the static data as the
-- view that `IndexView` promises. The view answers what was loaded before the step.
use obehy.Prelude.{ℕ, String, Bool, ◌&&◌, Option, none, some, List, [], ◌∷◌, leb}
use obehy.Prelude.Raises.{Raises}
use obehy.Model.Facts.{Date, Feed}

pub record KeyEntry : Type 0 where
  pub public_id : String
  pub valid_from : Date
  pub valid_to : Date

unfoldable pub valid_on : KeyEntry → Date → Bool
valid_on e day = leb e.valid_from day && leb day e.valid_to

pub record Call : Type 0 where
  pub sequence : ℕ
  pub location_id : String
  pub visit_n : ℕ
  pub passenger_service : Bool
  pub arrival : Option ℕ
  pub departure : Option ℕ
  pub on_request : Bool
  pub point_id : Option String

abbrev first_some : Option ℕ → Option ℕ → Option ℕ
first_some none b = b
first_some (some a) b = some a

-- `Call.time`: departure, else arrival; an IndexMiss without either.
unfoldable pub time : Call → Raises ℕ
time c = first_some c.departure c.arrival

pub record TripPart : Type 0 where
  pub trip_id : String
  pub train_number : Option String
  pub first : ℕ
  pub last : ℕ

pub record Trip : Type 0 where
  pub trip_id : String
  pub route_id : String
  pub route_name : String
  pub mode : String
  pub service_id : String
  pub headsign : Option String
  pub shape_id : Option String
  pub calls : List Call
  pub run_key : Option String
  pub run_part : Option ℕ
  pub train_number : Option String
  pub parts : List TripPart
  pub agency_id : Option String

-- `Trip.start` and `Trip.end`: a trip without calls raises an IndexError.
start_of : List Call → Raises ℕ
unfolding time
start_of [] = none
start_of (c ∷ cs) = first_some c.departure (time c)

end_of : List Call → Raises ℕ
unfolding time
end_of [] = none
end_of (c ∷ []) = first_some c.arrival (time c)
end_of (_ ∷ c ∷ cs) = end_of (c ∷ cs)

unfoldable pub start : Trip → Raises ℕ
unfolding start_of
start t = start_of t.calls

unfoldable pub end : Trip → Raises ℕ
unfolding end_of
end t = end_of t.calls

pub record IndexView : Type 0 where
  pub release_id : String
  pub feed : Feed
  pub keys : String → String → List KeyEntry
  pub trip : String → Trip
  pub runs_on : String → Date → Bool
  pub location_name : String → String
  pub run : Trip → Date → Trip
  pub location_key : String → String → Option String
  pub line_keys : String → String → List String
