-- ===== src/Reference/Picks.antt =====
-- `pick`: the winner of each attribute, and whether another statement contradicts it.
use mathlib.Core.List.{Memᴰ}
use mathlib.Core.List.Memᴰ
use obehy.Prelude.{
  ℕ, ltb, nat_eq, String, Bool, true, false, not, ◌&&◌, ◌||◌, ◌≡◌, refl, sym, ◌∙◌, ap, subst, some,
  List, [], ◌∷◌, ◌==◌, string_eq, Bool-cases, inl, inr, arith, or_else,
}
use obehy.Prelude.Dict.{Dict}
use obehy.Prelude.Lists.{any, keep_if}
use obehy.Prelude.Groups.{group_by, group_by-of_key, group_by-into, group_by-item}
use obehy.Prelude.Items.{All-Memᴰ, into_sort_by, from_sort_by}
use obehy.Prelude.Raises.{◌>>=◌}
use obehy.Prelude.Sort.{sort_by, sort_by-Sorted, Sorted, IsOrder}
use obehy.Prelude.Texts.{str_lt, str_lt-asym, str_lt-antisym, not_lt_trans}
use obehy.Reference.Precedence.{
  Statement, Picked, Vocabulary, rank_within, origin_rank, ranks_before, rank_le, is_stated,
  contradicts, pick_first, attribute_le, pick_each, pick,
}

-- A comparison of numbers, and on a tie another one, is transitive in its negation.
tie_trans :
    (x y z : ℕ) (p q r : Bool)
    → (p ≡ false → q ≡ false → r ≡ false)
    → (ltb y x || y == x && p) ≡ false
    → (ltb z y || z == y && q) ≡ false
    → (ltb z x || z == x && r) ≡ false
tie_trans x y z p q r t h k = ground (arith, t)

abbrev text_before : Statement → Statement → Bool
text_before a b = str_lt a.source b.source || a.source == b.source && str_lt a.value b.value

text_trans :
    (x y z : Statement)
    → text_before y x ≡ false
    → text_before z y ≡ false
    → text_before z x ≡ false
text_trans x y z h k = ground (
  arith,
  not_lt_trans x.source y.source z.source,
  not_lt_trans x.value y.value z.value,
  str_lt-antisym x.source y.source,
  str_lt-asym x.source y.source,
  str_lt-asym y.source z.source,
  string_eq.same_iff y.source x.source,
  string_eq.same_iff z.source y.source,
  string_eq.same_iff z.source x.source,
)

module _ (vocabulary : Vocabulary) where
  abbrev late : Statement → Statement → Bool
  late a b =
      let time_a = or_else a.observed_at 0 in
      let time_b = or_else b.observed_at 0 in
      ltb time_b time_a || time_a == time_b && text_before a b

  late_trans : (x y z : Statement) → late y x ≡ false → late z y ≡ false → late z x ≡ false
  late_trans x y z h k = ground (arith, text_trans x y z)

  before_trans :
      (x y z : Statement)
      → ranks_before vocabulary y x ≡ false
      → ranks_before vocabulary z y ≡ false
      → ranks_before vocabulary z x ≡ false
  unfolding ranks_before
  before_trans x y z =
      let within = λ (s : Statement). rank_within vocabulary s.origin s in
      let second =
        λ (a b : Statement). ltb (within a) (within b) || within a == within b && late a b in
      tie_trans (origin_rank x.origin) (origin_rank y.origin) (origin_rank z.origin) (second y x)
        (second z y) (second z x)
        (tie_trans (within x) (within y) (within z) (late y x) (late z y) (late z x)
          (late_trans x y z))

  rank_order : IsOrder (rank_le vocabulary)
  unfolding ranks_before
  rank_order = record {
    total = λ x y h. ground (
      arith,
      str_lt-asym x.source y.source,
      str_lt-asym y.source x.source,
      str_lt-asym x.value y.value,
      str_lt-asym y.value x.value,
      string_eq.same_iff x.source y.source,
      string_eq.same_iff y.source x.source,
    );
    transitive = λ x y z h k. ground (arith, before_trans x y z);
  }

module _ (p : Statement → Bool) where
  any-of : (ss : List Statement) (s : Statement) → Memᴰ s ss → p s ≡ true → any p ss ≡ true
  any-of [] s m h = elim m [ ]
  any-of (t ∷ ss) s (Memᴰ.head e) h =
      let q : p t ≡ true = subst (λ (x : Statement). p x ≡ true) e h in ground (arith, q)
  any-of (t ∷ ss) s (Memᴰ.tail m) h = ground (arith, any-of ss s m h)

  any-some : (ss : List Statement) → any p ss ≡ true → (s : Statement) × Memᴰ s ss × (p s ≡ true)
  any-some [] h = absurd (cc)
  any-some (t ∷ ss) h = elim (Bool-cases (p t)) [
    | inl here ↦ (t, Memᴰ.head refl, here)
    | inr other ↦ let (s, m, q) = any-some ss (ground (arith, other)) in (s, Memᴰ.tail m, q)
  ]

of_attribute-from :
    (a : String) (ss : List Statement) (s : Statement)
    → Memᴰ s (keep_if (λ t. t.attribute == a) ss)
    → Memᴰ s ss × (s.attribute ≡ a)
of_attribute-from a [] s = λ m. absurd (Memᴰ.not-nil m)
of_attribute-from a (t ∷ ss) s = elim (Bool-cases (t.attribute == a)) [
  | inl same ↦ rw same (λ m. elim (Memᴰ.cases_cons m) [
    | inl e ↦ (
      Memᴰ.head e,
      ap (λ (x : Statement). x.attribute) e ∙ (string_eq.same_iff t.attribute a).0 same,
    )
    | inr later ↦ let (there, q) = of_attribute-from a ss s later in (Memᴰ.tail there, q)
  ])
  | inr other ↦ rw other (λ m. let (there, q) = of_attribute-from a ss s m in (Memᴰ.tail there, q))
]

of_attribute-into :
    (a : String) (ss : List Statement) (s : Statement)
    → Memᴰ s ss
    → s.attribute ≡ a
    → Memᴰ s (keep_if (λ t. t.attribute == a) ss)
of_attribute-into a [] s m q = m
of_attribute-into a (t ∷ ss) s m q = elim (Memᴰ.cases_cons m) [
  | inl e ↦
      let same : (t.attribute == a) ≡ true =
        (string_eq.same_iff t.attribute a).1 (sym (ap (λ (x : Statement). x.attribute) e) ∙ q) in
      rw same (Memᴰ.head e)
  | inr later ↦ elim (Bool-cases (t.attribute == a)) [
    | inl same ↦ rw same (Memᴰ.tail (of_attribute-into a ss s later q))
    | inr other ↦ rw other (of_attribute-into a ss s later q)
  ]
]

module _ (vocabulary : Vocabulary) (statements : List Statement) where
  -- The pick of an attribute: all its statements, the first of them in rank as the winner, and a
  -- conflict exactly when a curated or live one says another value.
  pub record IsPick (a : String) (p : Picked) : Type 0 where
    pub about : (s : Statement) → Memᴰ s p.statements → Memᴰ s statements × (s.attribute ≡ a)
    pub every : (s : Statement) → Memᴰ s statements → s.attribute ≡ a → Memᴰ s p.statements
    pub among : Memᴰ p.winner p.statements
    pub first : (s : Statement) → Memᴰ s p.statements → ranks_before vocabulary s p.winner ≡ false
    pub contradicted :
        p.conflict ≡ true
        → (s : Statement) × Memᴰ s p.statements
          × (is_stated s ≡ true)
          × (string_eq.same s.value p.winner.value ≡ false)
    pub flagged :
        (s : Statement)
        → Memᴰ s p.statements
        → is_stated s ≡ true
        → string_eq.same s.value p.winner.value ≡ false
        → p.conflict ≡ true

  Sorted-first :
      (winner s : Statement) (rest : List Statement)
      → Sorted (rank_le vocabulary) (winner ∷ rest)
      → Memᴰ s (winner ∷ rest)
      → ranks_before vocabulary s winner ≡ false
  Sorted-first winner s rest h m = elim (Memᴰ.cases_cons m) [
    | inl e ↦
        subst (λ (x : Statement). ranks_before vocabulary x winner ≡ false) (sym e) (irrefl winner)
    | inr later ↦
        ground (arith, All-Memᴰ (λ y. rank_le vocabulary winner y ≡ true) rest h.0 s later)
  ]
    where
      irrefl : (w : Statement) → ranks_before vocabulary w w ≡ false
      irrefl w = elim (Bool-cases (ranks_before vocabulary w w)) [
        | inl yes_before ↦ ground (arith, (rank_order vocabulary).total w w)
        | inr fine ↦ fine
      ]

  pick_first-IsPick :
      (a : String) (group ordered : List Statement)
      → group ≡ keep_if (λ t. t.attribute == a) statements
      → (s : Statement) × Memᴰ s group
      → sort_by (rank_le vocabulary) group ≡ ordered
      → (p : Picked) × (pick_first ordered ≡ some p) × IsPick a p
  unfolding pick_first contradicts
  pick_first-IsPick a group [] own (s, m) e = absurd (
      Memᴰ.not-nil
        (subst (λ (l : List Statement). Memᴰ s l) e (into_sort_by (rank_le vocabulary) s group m)))
  pick_first-IsPick a group (winner ∷ rest) own some_in e =
      let le = rank_le vocabulary in
      let says = λ (s : Statement). is_stated s && not (s.value == winner.value) in
      let from = λ (s : Statement) (m : Memᴰ s (winner ∷ rest)). of_attribute-from a statements s (
        subst (λ (l : List Statement). Memᴰ s l) own
          (from_sort_by le s group (subst (λ (l : List Statement). Memᴰ s l) (sym e) m))) in
      let sorted = subst (Sorted le) e (sort_by-Sorted le (rank_order vocabulary) group) in
      (
        record { winner = winner; conflict = any says (winner ∷ rest); statements = winner ∷ rest },
        refl,
        record {
          about = from;
          every = λ s m q.
              subst (λ (l : List Statement). Memᴰ s l) e
                (into_sort_by le s group (
                  subst (λ (l : List Statement). Memᴰ s l) (sym own)
                    (of_attribute-into a statements s m q)));
          among = Memᴰ.head refl;
          first = λ s m. Sorted-first winner s rest sorted m;
          contradicted = λ h.
              let (s, m, q) = any-some says (winner ∷ rest) h in (s, m, ground arith, ground arith);
          flagged = λ s m h k. any-of says (winner ∷ rest) s m (ground (arith, h, k));
        },
      )

  Picks : List (String × List Statement) → Dict String Picked → Type 0
  Picks groups out =
      ((a : String) (p : Picked) → Memᴰ (a, p) out → IsPick a p)
      × ((a : String) (group : List Statement)
          → Memᴰ (a, group) groups
          → (p : Picked) × Memᴰ (a, p) out)

  pick_each-Picks :
      (groups : List (String × List Statement))
      → ((a : String) (group : List Statement)
          → Memᴰ (a, group) groups
          → (group ≡ keep_if (λ t. t.attribute == a) statements) × (s : Statement) × Memᴰ s group)
      → (out : Dict String Picked) × (pick_each vocabulary groups ≡ some out) × Picks groups out
  unfolding pick_each Picks
  pick_each-Picks [] h =
      ([], refl, (λ a p m. absurd (Memᴰ.not-nil m), λ a group m. absurd (Memᴰ.not-nil m)))
  pick_each-Picks ((a, group) ∷ groups) h =
      let (own, s, m) = h a group (Memᴰ.head refl) in
      let (p, e, good) =
        pick_first-IsPick a group (sort_by (rank_le vocabulary) group) own (s, m) refl in
      let of_group : String × List Statement → String × Picked = λ x. (x.0, p) in
      let (out, q, (all, each)) = pick_each-Picks groups (λ b g n. h b g (Memᴰ.tail n)) in
      (
        (a, p) ∷ out,
        rw (e, ◌>>=◌) (rw (q, ◌>>=◌) refl),
        (
          λ b r n. elim (Memᴰ.cases_cons n) [
            | inl same ↦ subst (λ (x : String × Picked). IsPick x.0 x.1) (sym same) good
            | inr later ↦ all b r later
          ],
          λ b g n. elim (Memᴰ.cases_cons n) [
            | inl same ↦ (p, Memᴰ.head (ap of_group same))
            | inr later ↦ let (r, there) = each b g later in (r, Memᴰ.tail there)
          ],
        ),
      )

  -- `pick` never raises: it gives each attribute that some statement is about, and no other, and
  -- for it all its statements, the first in rank as the winner, and a conflict exactly when a
  -- curated or live one says another value.
  pub pick-IsPick :
      (out : Dict String Picked) × (pick statements vocabulary ≡ some out)
      × ((a : String) (p : Picked) → Memᴰ (a, p) out → IsPick a p)
      × ((s : Statement) → Memᴰ s statements → (p : Picked) × Memᴰ (s.attribute, p) out)
  unfolding pick Picks
  pick-IsPick =
      let key = λ (s : Statement). s.attribute in
      let groups = group_by key [] statements in
      let (out, e, (all, each)) = pick_each-Picks (sort_by attribute_le groups) (λ a group m.
        let there = from_sort_by attribute_le (a, group) groups m in
        let (s, among) = group_by-item key statements a group there in
        (group_by-of_key key statements a group there, s, among)) in
      (
        out,
        e,
        all,
        λ s m.
            let (group, there) = group_by-into key [] statements s m in
            each s.attribute group (into_sort_by attribute_le (s.attribute, group) groups there),
      )
