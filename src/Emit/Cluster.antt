-- ===== src/Emit/Cluster.antt =====
-- `cluster` (src/obehy/realtime/emit/pairing.py) ends, and finds the reports that confirmed pairs
-- join, directly or through others; it is the same from each of them.
use obehy.Prelude.{
  ℕ, zero, suc, ◌+◌, ◌≤◌, Bool, true, false, ◌||◌, ◌≡◌, ◌↔◌, refl, sym, ◌∙◌, subst, List, [], ◌∷◌,
  ◌==◌, arith, Option, some, inl, inr, ◌⊎◌, Bool-cases,
}
use obehy.Prelude.Lists.{length, contains}
use obehy.Prelude.Sort.{contains-sort_by}
use obehy.Emit.Pairing.{Report, report_eq, Pairings}
use obehy.Emit.Partners.{partners, sorted_reports, visit, spread, enough, cluster}
use obehy.Emit.Visit.{
  everyone, length-everyone, partners-everyone, Confirmed, Confirmed-sym, partners-Confirmed,
  Confirmed-partners, unseen, unseen_le, unseen-visit, visit-seen, visit-kept, visit-waits,
  visit-from,
}

-- Joined by confirmed pairs of the stored evidence, directly or through others.
pub data Joined (p : Pairings) (r : Report) : Report → Type 0 where
  here : Joined p r r
  next : {x y : Report} → Joined p r x → Confirmed p x y → Joined p r y

Joined-trans : {p : Pairings} {x y z : Report} → Joined p x y → Joined p y z → Joined p x z
Joined-trans j here = j
Joined-trans j (next k h) = next (Joined-trans j k) h

Joined-sym : {p : Pairings} {x y : Report} → Joined p x y → Joined p y x
Joined-sym here = here
Joined-sym {p} (next {x} {y} j h) = Joined-trans (next here (Confirmed-sym p x y h)) (Joined-sym j)

spread-some :
    (p : Pairings) (fuel : ℕ) (seen frontier : List Report)
    → unseen (everyone p.pairs) seen + length frontier ≤ fuel
    → (out : List Report) × (spread p fuel seen frontier ≡ some out)
unfolding spread
spread-some p fuel seen [] h = (seen, refl)
spread-some p zero seen (r ∷ frontier) h = absurd (omega (arith, h))
spread-some p (suc fuel) seen (r ∷ frontier) h =
    let after = visit (partners p r) (seen, frontier) in
    spread-some p fuel after.0 after.1 (
      omega (
        arith,
        h,
        unseen-visit (everyone p.pairs) (partners p r) seen frontier (partners-everyone p r),
      ))

module _ (p : Pairings) (r : Report) where
  -- What the passes keep: all that is seen is joined, and all of it but the frontier has its
  -- partners seen.
  record Searched (seen frontier : List Report) : Type 0 where
    start : contains r seen ≡ true
    joined : (y : Report) → contains y seen ≡ true → Joined p r y
    waiting : (y : Report) → contains y frontier ≡ true → contains y seen ≡ true
    closed :
        (x : Report)
        → contains x seen ≡ true
        → (contains x frontier ≡ true)
          ⊎ ((y : Report) → contains y (partners p x) ≡ true → contains y seen ≡ true)

  or_cases : (a b : Bool) → (a || b) ≡ true → (a ≡ true) ⊎ (b ≡ true)
  or_cases true b h = inl refl
  or_cases false b h = inr h

  module _ (x : Report) (seen frontier : List Report) (h : Searched seen (x ∷ frontier)) where
    abbrev rest : List Report × List Report
    rest = visit (partners p x) (seen, frontier)

    seen_before : (y : Report) → contains y seen ≡ true → contains y rest.0 ≡ true
    seen_before y e = visit-seen y (partners p x) seen frontier ∙ ground arith

    seen_now : (y : Report) → contains y (partners p x) ≡ true → contains y rest.0 ≡ true
    seen_now y e = visit-seen y (partners p x) seen frontier ∙ ground arith

    x-Joined : Joined p r x
    x-Joined = h.joined x (h.waiting x (ground (arith, report_eq.same_iff x x)))

    rest-closed :
        (z : Report)
        → (contains z seen ≡ true) ⊎ (contains z seen ≡ false)
        → contains z rest.0 ≡ true
        → (contains z rest.1 ≡ true)
          ⊎ ((y : Report) → contains y (partners p z) ≡ true → contains y rest.0 ≡ true)
    rest-closed z (inr new) k = inl (
        visit-waits z (partners p x) seen frontier new
          (ground (arith, visit-seen z (partners p x) seen frontier)))
    rest-closed z (inl old) k = elim (h.closed z old) [
      | inr done ↦ inr (λ y e. seen_before y (done y e))
      | inl waits ↦ elim (or_cases (x == z) (contains z frontier) waits) [
        | inl same ↦ inr (λ y e. seen_now y (
            subst (λ (w : Report). contains y (partners p w) ≡ true)
              (sym ((report_eq.same_iff x z).0 same)) e))
        | inr later ↦ inl (visit-kept z (partners p x) seen frontier later)
      ]
    ]

    rest-Searched : Searched rest.0 rest.1
    rest-Searched = record {
      start = seen_before r h.start;
      joined = λ y e.
          elim (or_cases (contains y seen) (contains y (partners p x))
            (sym (visit-seen y (partners p x) seen frontier) ∙ e)) [
              | inl old ↦ h.joined y old
              | inr new ↦ next x-Joined (partners-Confirmed p x y new)
            ];
      waiting = λ y e.
          elim (or_cases (contains y frontier) (contains y (partners p x))
            (visit-from y (partners p x) seen frontier e)) [
              | inl old ↦ seen_before y (h.waiting y (ground arith))
              | inr new ↦ seen_now y new
            ];
      closed = λ z k. rest-closed z (Bool-cases (contains z seen)) k;
    }

  spread-Searched :
      (fuel : ℕ) (seen frontier out : List Report)
      → Searched seen frontier
      → spread p fuel seen frontier ≡ some out
      → Searched out []
  unfolding spread
  spread-Searched fuel seen [] out h e = subst (λ (s : List Report). Searched s []) (cc) h
  spread-Searched zero seen (x ∷ frontier) out h e = absurd (cc)
  spread-Searched (suc fuel) seen (x ∷ frontier) out h e =
      let after = visit (partners p x) (seen, frontier) in
      spread-Searched fuel after.0 after.1 out (rest-Searched x seen frontier h) e

  Searched-Joined :
      (out : List Report) → Searched out [] → (y : Report) → Joined p r y → contains y out ≡ true
  Searched-Joined out h r here = h.start
  Searched-Joined out h y (next {x} j e) = elim (h.closed x (Searched-Joined out h x j)) [
    | inl nothing ↦ absurd (cc)
    | inr all ↦ all y (Confirmed-partners p x y e)
  ]

  start-Searched : Searched (r ∷ []) (r ∷ [])
  start-Searched = record {
    start = ground (arith, report_eq.same_iff r r);
    joined = λ y e.
        subst (λ (z : Report). Joined p r z) ((report_eq.same_iff r y).0 (ground arith)) here;
    waiting = λ y e. e;
    closed = λ x e. inl e;
  }

  -- `cluster` returns, and the reports that it returns are exactly those that confirmed pairs join
  -- to its report, directly or through others, itself included.
  pub cluster-Joined :
      (out : List Report) × (cluster p r ≡ some out)
      × ((y : Report) → (contains y out ≡ true) ↔ Joined p r y)
  unfolding cluster
  cluster-Joined =
      let (found, e) =
        spread-some p (enough p) (r ∷ []) (r ∷ [])
          (omega (arith, unseen_le (everyone p.pairs) (r ∷ []), length-everyone p.pairs)) in
      let h = spread-Searched (enough p) (r ∷ []) (r ∷ []) found start-Searched e in
      (
        sorted_reports found,
        rw (e, cluster) refl,
        λ y. (
          λ k. h.joined y (sym (contains-sort_by _ y found) ∙ k),
          λ j. contains-sort_by _ y found ∙ Searched-Joined found h y j,
        ),
      )

iff_true : (a b : Bool) → (a ≡ true → b ≡ true) → (b ≡ true → a ≡ true) → a ≡ b
iff_true true b h k = sym (h refl)
iff_true false true h k = k refl
iff_true false false h k = refl

-- The clusters are the classes of one equivalence: from any report of a cluster, `cluster` finds
-- the same reports.
pub cluster-same :
    (p : Pairings) (r x : Report) (of_r of_x : List Report)
    → cluster p r ≡ some of_r
    → cluster p x ≡ some of_x
    → contains x of_r ≡ true
    → (y : Report) → contains y of_x ≡ contains y of_r
cluster-same p r x of_r of_x e k h y =
    let (out_r, e', from_r) = cluster-Joined p r in
    let (out_x, k', from_x) = cluster-Joined p x in
    let same_r : out_r ≡ of_r = some_eq (sym e' ∙ e) in
    let same_x : out_x ≡ of_x = some_eq (sym k' ∙ k) in
    let j : Joined p r x =
      (from_r x).0 (subst (λ (l : List Report). contains x l ≡ true) (sym same_r) h) in
    subst (λ (l : List Report). contains y l ≡ contains y of_r) same_x
      (subst (λ (l : List Report). contains y out_x ≡ contains y l) same_r
        (iff_true (contains y out_x) (contains y out_r)
          (λ m. (from_r y).1 (Joined-trans j ((from_x y).0 m)))
          (λ m. (from_x y).1 (Joined-trans (Joined-sym j) ((from_r y).0 m)))))
  where
    some_eq : {a b : List Report} → ◌≡◌ {A = Option (List Report)} (some a) (some b) → a ≡ b
    some_eq q = cc
