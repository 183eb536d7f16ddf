-- ===== src/Fusion/Tracks.antt =====
-- The tracks of an instance are a map from sources, and the lead of a source's tracks.
use obehy.Prelude.{
  ◌≡◌, refl, String, Option, none, some, List, [], ◌∷◌, ◌==◌, string_eq, arith, if◌then◌else◌,
  or_else,
}
use obehy.Model.Journey.{SourceTrack, Instance, VehicleId, Lead}
use obehy.Model.Facts.{Instant, Observation, at}
use obehy.Fusion.{tracks_with, with_track, track_in, source_track, lead_of, with_lead, new_track}

track_in-tracks_with :
    (ts : List SourceTrack) (track : SourceTrack) (source : String)
    → track_in (tracks_with ts track) source
      ≡ (if track.source == source then some track else track_in ts source)
unfolding track_in tracks_with
track_in-tracks_with [] track source = refl
track_in-tracks_with (t ∷ ts) track source = ground (
  arith,
  string_eq.same_iff t.source track.source,
  string_eq.same_iff track.source source,
  string_eq.same_iff t.source source,
  track_in-tracks_with ts track source,
)

-- Setting a source's track changes that source's track and no other.
pub source_track-with_track :
    (i : Instance) (track : SourceTrack) (source : String)
    → source_track (with_track i track) source
      ≡ (if track.source == source then some track else source_track i source)
unfolding with_track
source_track-with_track i track source = track_in-tracks_with i.sources track source

track_in-source :
    (ts : List SourceTrack) (source : String) (t : SourceTrack)
    → track_in ts source ≡ some t
    → t.source ≡ source
unfolding track_in
track_in-source [] source t e = absurd (ground arith)
track_in-source (u ∷ ts) source t e =
    ground (arith, string_eq.same_iff u.source source, track_in-source ts source t)

abbrev or_new : Option SourceTrack → String → Instant → SourceTrack
or_new t source heard_at = or_else t (new_track source heard_at)

or_new-source :
    (i : Instance) (source : String) (heard_at : Instant)
    → (or_new (source_track i source) source heard_at).source ≡ source
or_new-source i source heard_at = go (source_track i source) refl
  where
    go :
        (x : Option SourceTrack)
        → source_track i source ≡ x
        → (or_new x source heard_at).source ≡ source
    go none q = refl
    go (some t) q = track_in-source i.sources source t q

-- A vehicle that is made to lead leads its own source's part of the journey, as of the
-- observation, and the lead of every other source is as before.
pub lead_of-with_lead :
    (i : Instance) (vehicle : VehicleId) (o : Observation) (source : String)
    → lead_of (with_lead i vehicle o) source ≡ (
        if vehicle.source == source
        then some (record { vehicle = vehicle; seen = at o })
        else lead_of i source)
unfolding lead_of with_lead
lead_of-with_lead i vehicle o source = go i.lead refl
  where
    go :
        (l : Option Lead)
        → i.lead ≡ l
        → lead_of (with_lead i vehicle o) source ≡ (
            if vehicle.source == source
            then some (record { vehicle = vehicle; seen = at o })
            else lead_of i source)
    go none q = ground (arith, q, string_eq.same_iff vehicle.source source)
    go (some l) q =
        let track = or_new (source_track i vehicle.source) vehicle.source o.received_at in
        let led = record track { lead = some (record { vehicle = vehicle; seen = at o }) } in
        ground (
          arith,
          q,
          string_eq.same_iff vehicle.source source,
          string_eq.same_iff l.vehicle.source source,
          string_eq.same_iff l.vehicle.source vehicle.source,
          or_new-source i vehicle.source o.received_at,
          track_in-tracks_with i.sources led source,
        )
