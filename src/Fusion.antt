-- ===== src/Fusion.antt =====
-- The per-source tracks of an instance, the vehicle that leads each source, and point events
-- (src/obehy/realtime/timeline/fusion.py, and `Instance.source_track` of model.py).
pub mod Resolve
pub mod Points
pub mod Forward
pub mod Tracks
pub mod Examples
use obehy.Prelude.{
  ◌+◌, ◌-◌, String, Bool, true, false, ◌&&◌, ◌||◌, Option, none, some, List, [], ◌∷◌, ◌==◌,
  string_eq, if◌then◌else◌, or_else,
}
use obehy.Prelude.Texts.{str_lt}
use obehy.Model.Facts.{Instant, Observation, at}
use obehy.Model.Journey.{VehicleId, Lead, SourceTrack, Instance}

-- `tracks_with`: the tracks, sorted by source, with `track` in its source's place.
unfoldable pub tracks_with : List SourceTrack → SourceTrack → List SourceTrack
tracks_with [] track = track ∷ []
tracks_with (other ∷ rest) track =
    if other.source == track.source
    then track ∷ rest
    else if str_lt track.source other.source
    then track ∷ other ∷ rest
    else other ∷ tracks_with rest track

unfoldable pub with_track : Instance → SourceTrack → Instance
with_track i track = record i { sources = tracks_with i.sources track }

unfoldable pub track_in : List SourceTrack → String → Option SourceTrack
track_in [] source = none
track_in (t ∷ ts) source = if t.source == source then some t else track_in ts source

-- `Instance.source_track`
abbrev pub source_track : Instance → String → Option SourceTrack
source_track i source = track_in i.sources source

unfoldable pub track_lead : Option SourceTrack → Option Lead
track_lead none = none
track_lead (some t) = t.lead

unfoldable pub own_lead : Option Lead → String → Bool
own_lead none source = false
own_lead (some l) source = l.vehicle.source == source

-- `lead_of`: the vehicle that leads a source's contributions.
unfoldable pub lead_of : Instance → String → Option Lead
unfolding track_lead own_lead
lead_of i source = if own_lead i.lead source then i.lead else track_lead (source_track i source)

no_other_lead : Option Lead → String → Bool
no_other_lead none source = true
no_other_lead (some l) source = l.vehicle.source == source

abbrev pub new_track : String → Instant → SourceTrack
new_track source heard_at = record {
  source = source;
  heard_at = heard_at;
  fingerprint = none;
  next_point = none;
  delay_s = none;
  delay_at = none;
  delay_reference = none;
  prediction = none;
  point = none;
  position_at = none;
  lead = none;
}

unfoldable pub with_lead : Instance → VehicleId → Observation → Instance
unfolding no_other_lead with_track
with_lead i vehicle o =
    let lead : Lead = record { vehicle = vehicle; seen = at o } in
    let track = or_else (source_track i vehicle.source) (new_track vehicle.source o.received_at) in
    if no_other_lead i.lead vehicle.source
    then record i { lead = some lead }
    else with_track i (record track { lead = some lead })
