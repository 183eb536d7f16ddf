-- ===== src/Emit/Stored.antt =====
-- The table that the writer keeps of the pairings: it applies the changes that it asks for.
use obehy.Prelude.{
  ℕ, String, false, ◌≡◌, refl, sym, Option, none, some, List, [], ◌∷◌, inl, inr, Bool-cases, leb,
  arith, string_eq, ◌∙◌,
}
use obehy.Prelude.Dict.{Dict, lookup, insert, remove, lookup-insert, lookup-remove}
use obehy.Model.Facts.{Instant, Float}
use obehy.Model.Journey.{JourneyKey}
use obehy.Emit.Pairing.{
  Pair, pair_eq, Settings, Fix, Evidence, Pairings, dropped, drop, note, grown, confirms, closer,
  close,
}
use obehy.Emit.Tick.{observe, changes}
use obehy.Emit.Observe.{observe-P}

-- What a table holds for a pair once the changes are written to it.
abbrev pub written : Dict Pair Evidence → Option (Option Evidence) → Pair → Option Evidence
written table none pair = lookup pair table
written table (some evidence) pair = evidence

-- The pairs are the table that was last written, with the changes since.
abbrev pub Mirrors : Dict Pair Evidence → Pairings → Type 0
Mirrors table p = (pair : Pair) → lookup pair p.pairs ≡ written table (lookup pair p.changed) pair

module _ (s : Settings) (table : Dict Pair Evidence) where
  drop-Mirrors : (pair : Pair) (p : Pairings) → Mirrors table p → Mirrors table (drop pair p).0
  unfolding drop
  drop-Mirrors pair p h = go (lookup pair p.pairs)
    where
      go : (o : Option Evidence) → Mirrors table (dropped pair o p).0
      go none j = h j
      go (some old) j =
          ground (arith, lookup-remove pair j p.pairs, lookup-insert pair j none p.changed, h j)

  note-Mirrors :
      (pair : Pair) (evidence : Evidence) (p : Pairings)
      → Mirrors table p
      → Mirrors table (note pair evidence p)
  unfolding note
  note-Mirrors pair evidence p h j = ground (
    arith,
    lookup-insert pair j evidence p.pairs,
    lookup-insert pair j (some evidence) p.changed,
    h j,
  )

  closer-Mirrors :
      (pair : Pair) (journey : JourneyKey) (at : Instant) (o : Option Evidence) (p : Pairings)
      → Mirrors table p
      → Mirrors table (closer s pair journey at o p).0
  unfolding closer
  closer-Mirrors pair journey at none p h = note-Mirrors pair _ p h
  closer-Mirrors pair journey at (some old) p h = elim (Bool-cases (leb at old.last_seen)) [
    | inl repeated ↦ rw repeated h
    | inr later ↦ elim (Bool-cases (confirms s (grown journey at old))) [
      | inl enough ↦ rw (later, enough) (note-Mirrors pair _ p h)
      | inr few ↦ rw (later, few) (note-Mirrors pair _ p h)
    ]
  ]

  close-Mirrors :
      (pair : Pair) (journey : JourneyKey) (at : Instant) (p : Pairings)
      → string_eq.same pair.0.0 pair.1.0 ≡ false
      → Mirrors table p
      → Mirrors table (close s pair journey at p).0
  unfolding close
  close-Mirrors pair journey at p other h = closer-Mirrors pair journey at (lookup pair p.pairs) p h

-- The writer's table after the changes since it last asked.
pub write_all : Dict Pair (Option Evidence) → Dict Pair Evidence → Dict Pair Evidence
write_all [] table = table
write_all ((pair, none) ∷ rest) table = remove pair (write_all rest table)
write_all ((pair, some evidence) ∷ rest) table = insert pair evidence (write_all rest table)

lookup-write_all :
    (changed : Dict Pair (Option Evidence)) (table : Dict Pair Evidence) (pair : Pair)
    → lookup pair (write_all changed table) ≡ written table (lookup pair changed) pair
unfolding write_all lookup
lookup-write_all [] table pair = refl
lookup-write_all ((there, none) ∷ rest) table pair =
    ground
      (arith, lookup-remove there pair (write_all rest table), lookup-write_all rest table pair)
lookup-write_all ((there, some evidence) ∷ rest) table pair = ground (
  arith,
  lookup-insert there pair evidence (write_all rest table),
  lookup-write_all rest table pair,
)

-- If the writer's table stood for the pairings at its last question, then after any tick the
-- table with the changes written holds exactly the evidence of every pair, and the pairings start
-- a new record of changes from there.
pub observe-written :
    (s : Settings) (distance_m : Float × Float → Float × Float → ℕ) (repr : JourneyKey → String)
    (fixes : List Fix) (now : Instant) (p : Pairings) (table : Dict Pair Evidence)
    → Mirrors table p
    → let q = (observe s distance_m repr fixes now p).0 in
      ((pair : Pair) → lookup pair (write_all (changes q).1 table) ≡ lookup pair q.pairs)
      × Mirrors (write_all (changes q).1 table) (changes q).0
unfolding changes lookup
observe-written s distance_m repr fixes now p table h =
    let q = (observe s distance_m repr fixes now p).0 in
    let mirrored : Mirrors table q =
      observe-P s distance_m repr (Mirrors table) (drop-Mirrors s table) (close-Mirrors s table)
        fixes now p h in
    let same : (pair : Pair) → lookup pair (write_all q.changed table) ≡ lookup pair q.pairs =
      λ pair. lookup-write_all q.changed table pair ∙ sym (mirrored pair) in
    (same, λ pair. sym (same pair))
