-- ===== src/Emit/Evidence.antt =====
-- The evidence of every pair: what it takes to be confirmed, and that no source is paired with
-- itself.
use obehy.Prelude.{
  ℕ, ◌+◌, ◌≤◌, String, true, false, ◌≡◌, refl, subst, Option, none, some, List, inl, inr,
  Bool-cases, leb, arith, string_eq,
}
use obehy.Prelude.Dict.{lookup, lookup-insert_cases, lookup-remove_cases}
use obehy.Model.Facts.{Instant, Float}
use obehy.Model.Journey.{JourneyKey}
use obehy.Emit.Pairing.{
  Pair, pair_eq, Settings, Fix, Evidence, Pairings, dropped, drop, note, grown, confirms, closer,
  close,
}
use obehy.Emit.Tick.{observe}
use obehy.Emit.Observe.{observe-P}

module _ (s : Settings) where
  -- Evidence runs forward in time; a pair is confirmed only by enough close fixes over long enough.
  pub record IsSound (evidence : Evidence) : Type 0 where
    pub forward : evidence.first_seen ≤ evidence.last_seen
    pub enough : evidence.confirmed ≡ true → s.min_fixes ≤ evidence.fixes
    pub sustained :
        evidence.confirmed ≡ true → evidence.first_seen + s.confirm_s ≤ evidence.last_seen

  abbrev pub AllSound : Pairings → Type 0
  AllSound p =
      (pair : Pair) (evidence : Evidence)
      → lookup pair p.pairs ≡ some evidence
      → IsSound evidence × (string_eq.same pair.0.0 pair.1.0 ≡ false)

  drop-AllSound : (pair : Pair) (p : Pairings) → AllSound p → AllSound (drop pair p).0
  unfolding drop
  drop-AllSound pair p h = go (lookup pair p.pairs)
    where
      go : (o : Option Evidence) → AllSound (dropped pair o p).0
      go none j evidence e = h j evidence e
      go (some old) j evidence e = h j evidence (lookup-remove_cases pair j evidence p.pairs e).1

  note-AllSound :
      (pair : Pair) (evidence : Evidence) (p : Pairings)
      → string_eq.same pair.0.0 pair.1.0 ≡ false
      → IsSound evidence
      → AllSound p
      → AllSound (note pair evidence p)
  unfolding note
  note-AllSound pair evidence p other good h j found e =
      elim (lookup-insert_cases pair j evidence found p.pairs e) [
        | inl (same, value) ↦ (
          subst IsSound value good,
          subst (λ (k : Pair). string_eq.same k.0.0 k.1.0 ≡ false) same other,
        )
        | inr old ↦ h j found old
      ]

  grown-IsSound :
      (journey : JourneyKey) (at : Instant) (old : Evidence)
      → IsSound old
      → leb at old.last_seen ≡ false
      → IsSound (grown journey at old)
  unfolding grown
  grown-IsSound journey at old h later = record {
    forward = ground (arith, h.forward);
    enough = λ c. omega (arith, h.enough c);
    sustained = λ c. ground (arith, h.sustained c);
  }

  confirmed-IsSound :
      (evidence : Evidence)
      → IsSound evidence
      → confirms s evidence ≡ true
      → IsSound (record evidence { confirmed = true })
  unfolding confirms
  confirmed-IsSound evidence h c = record {
    forward = h.forward;
    enough = λ _. ground arith;
    sustained = λ _. ground arith;
  }

  closer-AllSound :
      (pair : Pair) (journey : JourneyKey) (at : Instant) (o : Option Evidence) (p : Pairings)
      → lookup pair p.pairs ≡ o
      → string_eq.same pair.0.0 pair.1.0 ≡ false
      → AllSound p
      → AllSound (closer s pair journey at o p).0
  unfolding closer
  closer-AllSound pair journey at none p e other h =
      note-AllSound pair _ p other
        (record { forward = omega arith; enough = λ c. cc; sustained = λ c. cc }) h
  closer-AllSound pair journey at (some old) p e other h =
      elim (Bool-cases (leb at old.last_seen)) [
        | inl repeated ↦ rw repeated h
        | inr later ↦
            let more = grown-IsSound journey at old (h pair old e).0 later in
            elim (Bool-cases (confirms s (grown journey at old))) [
              | inl enough ↦
                  rw (later, enough)
                    (note-AllSound pair _ p other (confirmed-IsSound _ more enough) h)
              | inr few ↦ rw (later, few) (note-AllSound pair _ p other more h)
            ]
      ]

  close-AllSound :
      (pair : Pair) (journey : JourneyKey) (at : Instant) (p : Pairings)
      → string_eq.same pair.0.0 pair.1.0 ≡ false
      → AllSound p
      → AllSound (close s pair journey at p).0
  unfolding close
  close-AllSound pair journey at p other h =
      closer-AllSound pair journey at (lookup pair p.pairs) p refl other h

  -- Whatever a tick reports, a pair is of two sources and is confirmed only by at least
  -- `min_fixes` close fixes, the last at least `confirm_s` after the first.
  pub observe-AllSound :
      (distance_m : Float × Float → Float × Float → ℕ) (repr : JourneyKey → String)
      (fixes : List Fix) (now : Instant) (p : Pairings)
      → AllSound p
      → AllSound (observe s distance_m repr fixes now p).0
  observe-AllSound distance_m repr =
      observe-P s distance_m repr AllSound drop-AllSound close-AllSound
