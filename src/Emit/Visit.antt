-- ===== src/Emit/Visit.antt =====
-- One pass of `cluster` (src/obehy/realtime/emit/pairing.py): what it has seen, what waits on its
-- frontier, and why the passes come to an end.
use mathlib.Core.List.{Memᴰ}
use obehy.Prelude.{
  ℕ, ◌+◌, ◌≤◌, ◌<◌, true, false, ◌||◌, ◌≡◌, ◌∙◌, sym, ap, List, [], ◌∷◌, ◌⊎◌, inl, inr, Bool-cases,
  ◌==◌, if◌then◌else◌, arith,
}
use obehy.Prelude.Dict.{Dict}
use obehy.Prelude.Lists.{length, contains}
use obehy.Prelude.Sort.{contains-sort_by}
use obehy.Emit.Pairing.{Report, report_eq, Pair, Evidence, Pairings}
use obehy.Emit.Partners.{partners_in, partners, visit}

-- The reports of the pairs.
abbrev pub everyone : Dict Pair Evidence → List Report
everyone [] = []
everyone (((a, b), evidence) ∷ rest) = a ∷ b ∷ everyone rest

pub length-everyone :
    (pairs : Dict Pair Evidence) → length (everyone pairs) ≡ length pairs + length pairs
length-everyone [] = omega arith
length-everyone (((a, b), evidence) ∷ rest) = omega (arith, length-everyone rest)

partners_in-everyone :
    (x y : Report) (pairs : Dict Pair Evidence)
    → contains y (partners_in x pairs) ≡ true
    → contains y (everyone pairs) ≡ true
unfolding partners_in
partners_in-everyone x y [] h = h
partners_in-everyone x y (((a, b), evidence) ∷ rest) h =
    ground (arith, partners_in-everyone x y rest)

pub partners-everyone :
    (p : Pairings) (x y : Report)
    → contains y (partners p x) ≡ true
    → contains y (everyone p.pairs) ≡ true
unfolding partners
partners-everyone p x y h =
    partners_in-everyone x y p.pairs (rw (contains-sort_by _ y (partners_in x p.pairs)) at h)

-- A confirmed pair of the two reports is stored, in either order.
pub ConfirmedIn : Report → Report → Dict Pair Evidence → Type 0
ConfirmedIn x y pairs =
    (evidence : Evidence) × (Memᴰ ((x, y), evidence) pairs ⊎ Memᴰ ((y, x), evidence) pairs)
    × (evidence.confirmed ≡ true)

abbrev pub Confirmed : Pairings → Report → Report → Type 0
Confirmed p x y = ConfirmedIn x y p.pairs

ConfirmedIn-cons :
    (x y : Report) (pair : Pair × Evidence) (pairs : Dict Pair Evidence)
    → ConfirmedIn x y pairs
    → ConfirmedIn x y (pair ∷ pairs)
unfolding ConfirmedIn
ConfirmedIn-cons x y pair pairs (v, inl m, c) = (v, inl (Memᴰ.tail m), c)
ConfirmedIn-cons x y pair pairs (v, inr m, c) = (v, inr (Memᴰ.tail m), c)

partners_in-Confirmed :
    (x y : Report) (pairs : Dict Pair Evidence)
    → contains y (partners_in x pairs) ≡ true
    → ConfirmedIn x y pairs
unfolding partners_in ConfirmedIn
partners_in-Confirmed x y [] h = absurd (cc)
partners_in-Confirmed x y (((a, b), v) ∷ rest) h =
    elim (Bool-cases (contains y (partners_in x rest))) [
      | inl later ↦ ConfirmedIn-cons x y ((a, b), v) rest (partners_in-Confirmed x y rest later)
      | inr now ↦ elim (Bool-cases (a == x)) [
        | inl first ↦
            let ax : x ≡ a = sym ((report_eq.same_iff a x).0 first) in
            let by : y ≡ b = sym ((report_eq.same_iff b y).0 (ground (arith, first, now, h))) in
            let c : v.confirmed ≡ true = ground (arith, first, now, h) in
            (v, inl (Memᴰ.head (cc)), c)
        | inr second ↦
            let ay : y ≡ a = sym ((report_eq.same_iff a y).0 (ground (arith, second, now, h))) in
            let bx : x ≡ b = sym ((report_eq.same_iff b x).0 (ground (arith, second, now, h))) in
            let c : v.confirmed ≡ true = ground (arith, second, now, h) in
            (v, inr (Memᴰ.head (cc)), c)
      ]
    ]

Confirmed-partners_in :
    (x y : Report) (pairs : Dict Pair Evidence) (v : Evidence)
    → Memᴰ ((x, y), v) pairs ⊎ Memᴰ ((y, x), v) pairs
    → v.confirmed ≡ true
    → contains y (partners_in x pairs) ≡ true
unfolding partners_in
Confirmed-partners_in x y [] v (inl m) c = elim m [ ]
Confirmed-partners_in x y [] v (inr m) c = elim m [ ]
Confirmed-partners_in x y (((a, b), w) ∷ rest) v (inl (Memᴰ.head e)) c =
    let ax : a ≡ x = ap (λ (z : Pair × Evidence). z.0.0) (sym e) in
    let by : b ≡ y = ap (λ (z : Pair × Evidence). z.0.1) (sym e) in
    let cw : w.confirmed ≡ true = ap (λ (z : Pair × Evidence). z.1.confirmed) (sym e) ∙ c in
    ground (arith, cw, (report_eq.same_iff a x).1 ax, (report_eq.same_iff b y).1 by)
Confirmed-partners_in x y (((a, b), w) ∷ rest) v (inl (Memᴰ.tail m)) c =
    ground (arith, Confirmed-partners_in x y rest v (inl m) c)
Confirmed-partners_in x y (((a, b), w) ∷ rest) v (inr (Memᴰ.head e)) c =
    let ay : a ≡ y = ap (λ (z : Pair × Evidence). z.0.0) (sym e) in
    let bx : b ≡ x = ap (λ (z : Pair × Evidence). z.0.1) (sym e) in
    let cw : w.confirmed ≡ true = ap (λ (z : Pair × Evidence). z.1.confirmed) (sym e) ∙ c in
    ground (
      arith,
      cw,
      report_eq.same_iff a x,
      report_eq.same_iff b y,
      (report_eq.same_iff a y).1 ay,
      (report_eq.same_iff b x).1 bx,
    )
Confirmed-partners_in x y (((a, b), w) ∷ rest) v (inr (Memᴰ.tail m)) c =
    ground (arith, Confirmed-partners_in x y rest v (inr m) c)

pub Confirmed-sym : (p : Pairings) (x y : Report) → Confirmed p x y → Confirmed p y x
unfolding ConfirmedIn
Confirmed-sym p x y (v, inl m, c) = (v, inr m, c)
Confirmed-sym p x y (v, inr m, c) = (v, inl m, c)

-- The partners of a report are those that it has a confirmed pair with.
pub partners-Confirmed :
    (p : Pairings) (x y : Report) → contains y (partners p x) ≡ true → Confirmed p x y
unfolding partners
partners-Confirmed p x y h =
    partners_in-Confirmed x y p.pairs (rw (contains-sort_by _ y (partners_in x p.pairs)) at h)

pub Confirmed-partners :
    (p : Pairings) (x y : Report) → Confirmed p x y → contains y (partners p x) ≡ true
unfolding partners ConfirmedIn
Confirmed-partners p x y (v, m, c) =
    contains-sort_by _ y (partners_in x p.pairs) ∙ Confirmed-partners_in x y p.pairs v m c

-- The reports, as often as they stand in pairs, that have not been seen.
abbrev pub unseen : List Report → List Report → ℕ
unseen [] seen = 0
unseen (u ∷ us) seen = (if contains u seen then 0 else 1) + unseen us seen

pub unseen_le : (us seen : List Report) → unseen us seen ≤ length us
unseen_le [] seen = omega arith
unseen_le (u ∷ us) seen = ground (arith, unseen_le us seen)

unseen-cons_le : (r : Report) (us seen : List Report) → unseen us (r ∷ seen) ≤ unseen us seen
unseen-cons_le r [] seen = omega arith
unseen-cons_le r (u ∷ us) seen = ground (arith, unseen-cons_le r us seen)

unseen-cons_lt :
    (r : Report) (us seen : List Report)
    → contains r us ≡ true
    → contains r seen ≡ false
    → unseen us (r ∷ seen) < unseen us seen
unseen-cons_lt r [] seen h k = cc
unseen-cons_lt r (u ∷ us) seen h k = ground (
  arith,
  report_eq.same_iff u r,
  report_eq.same_iff r u,
  unseen-cons_le r us seen,
  unseen-cons_lt r us seen,
)

-- Each report that goes onto the frontier is one less to be seen.
pub unseen-visit :
    (us rs seen frontier : List Report)
    → ((y : Report) → contains y rs ≡ true → contains y us ≡ true)
    → unseen us (visit rs (seen, frontier)).0 + length (visit rs (seen, frontier)).1
      ≤ unseen us seen + length frontier
unfolding visit
unseen-visit us [] seen frontier h = omega arith
unseen-visit us (r ∷ rs) seen frontier h =
    let rest = λ (y : Report) (k : contains y rs ≡ true). h y (ground arith) in
    ground (
      arith,
      report_eq.same_iff r r,
      h r,
      unseen-visit us rs seen frontier rest,
      unseen-visit us rs (r ∷ seen) (r ∷ frontier) rest,
      unseen-cons_lt r us seen,
    )

module _ (y : Report) where
  pub visit-seen :
      (rs seen frontier : List Report)
      → contains y (visit rs (seen, frontier)).0 ≡ (contains y seen || contains y rs)
  unfolding visit
  visit-seen [] seen frontier = ground arith
  visit-seen (r ∷ rs) seen frontier = ground (
    arith,
    report_eq.same_iff r y,
    visit-seen rs seen frontier,
    visit-seen rs (r ∷ seen) (r ∷ frontier),
  )

  pub visit-kept :
      (rs seen frontier : List Report)
      → contains y frontier ≡ true
      → contains y (visit rs (seen, frontier)).1 ≡ true
  unfolding visit
  visit-kept [] seen frontier h = h
  visit-kept (r ∷ rs) seen frontier h =
      ground (arith, visit-kept rs seen frontier, visit-kept rs (r ∷ seen) (r ∷ frontier))

  pub visit-waits :
      (rs seen frontier : List Report)
      → contains y seen ≡ false
      → contains y rs ≡ true
      → contains y (visit rs (seen, frontier)).1 ≡ true
  unfolding visit
  visit-waits [] seen frontier h k = cc
  visit-waits (r ∷ rs) seen frontier h k = ground (
    arith,
    report_eq.same_iff r y,
    visit-waits rs seen frontier,
    visit-kept rs (r ∷ seen) (r ∷ frontier),
    visit-waits rs (r ∷ seen) (r ∷ frontier),
  )

  pub visit-from :
      (rs seen frontier : List Report)
      → contains y (visit rs (seen, frontier)).1 ≡ true
      → (contains y frontier || contains y rs) ≡ true
  unfolding visit
  visit-from [] seen frontier h = ground arith
  visit-from (r ∷ rs) seen frontier h = ground (
    arith,
    report_eq.same_iff r y,
    visit-from rs seen frontier,
    visit-from rs (r ∷ seen) (r ∷ frontier),
  )
