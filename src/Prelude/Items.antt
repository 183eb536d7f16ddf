-- ===== src/Prelude/Items.antt =====
-- The items of lists and dictionaries: what stands in them through sorting, and what holds of each.
use mathlib.Core.Path.{◌≡◌, refl, ap, sym, subst}
use mathlib.Core.Logic.{◌⊎◌, inl, inr}
use mathlib.Core.Bool.{Bool, true, ◌||◌, ◌&&◌}
use mathlib.Core.Option.{some}
use mathlib.Core.List.{List, [], ◌∷◌, ◌++◌, Memᴰ}
use mathlib.Core.List.Memᴰ
use native.Mathlib.Omega.{arith}
use obehy.Prelude.Tests.{Bool-cases}
use obehy.Prelude.Equal.{Eq, ◌==◌, ==→eq}
use obehy.Prelude.Lists.{All, contains, keep_if}
use obehy.Prelude.Sort.{insert_by, sort_by}
use obehy.Prelude.Dict.{Dict, lookup, insert, has}

module _ {ℓ} {A : Type ℓ} (le : A → A → Bool) (a : A) where
  into_insert_by : (x : A) (xs : List A) → (a ≡ x) ⊎ Memᴰ a xs → Memᴰ a (insert_by le x xs)
  unfolding insert_by
  into_insert_by x [] (inl e) = Memᴰ.head e
  into_insert_by x [] (inr m) = absurd (Memᴰ.not-nil m)
  into_insert_by x (y ∷ ys) m = elim (Bool-cases (le x y)) [
    | inl first ↦ rw first (elim m [ inl e ↦ Memᴰ.head e | inr later ↦ Memᴰ.tail later ])
    | inr after ↦ rw after (elim m [
      | inl e ↦ Memᴰ.tail (into_insert_by x ys (inl e))
      | inr later ↦ elim (Memᴰ.cases_cons later) [
        | inl e ↦ Memᴰ.head e
        | inr rest ↦ Memᴰ.tail (into_insert_by x ys (inr rest))
      ]
    ])
  ]

  -- What is sorted stands in the result.
  pub into_sort_by : (xs : List A) → Memᴰ a xs → Memᴰ a (sort_by le xs)
  unfolding sort_by
  into_sort_by [] m = m
  into_sort_by (x ∷ xs) m =
      into_insert_by x (sort_by le xs)
        (elim (Memᴰ.cases_cons m) [ inl e ↦ inl e | inr later ↦ inr (into_sort_by xs later) ])

  from_insert_by : (x : A) (xs : List A) → Memᴰ a (insert_by le x xs) → (a ≡ x) ⊎ Memᴰ a xs
  unfolding insert_by
  from_insert_by x [] = λ m. Memᴰ.cases_cons m
  from_insert_by x (y ∷ ys) = elim (Bool-cases (le x y)) [
    | inl first ↦ rw first (λ m. Memᴰ.cases_cons m)
    | inr after ↦ rw after (λ m. elim (Memᴰ.cases_cons m) [
      | inl e ↦ inr (Memᴰ.head e)
      | inr later ↦ elim (from_insert_by x ys later) [
        | inl e ↦ inl e
        | inr rest ↦ inr (Memᴰ.tail rest)
      ]
    ])
  ]

  -- What stands in a sorted list was sorted.
  pub from_sort_by : (xs : List A) → Memᴰ a (sort_by le xs) → Memᴰ a xs
  unfolding sort_by
  from_sort_by [] m = m
  from_sort_by (x ∷ xs) m = elim (from_insert_by x (sort_by le xs) m) [
    | inl e ↦ Memᴰ.head e
    | inr later ↦ Memᴰ.tail (from_sort_by xs later)
  ]

module _ {ℓ} {A : Type ℓ} ⦃e : Eq A⦄ where
  pub contains-append :
      (a : A) (xs ys : List A) → contains a (xs ++ ys) ≡ (contains a xs || contains a ys)
  contains-append a [] ys = refl
  contains-append a (x ∷ xs) ys = ground (arith, contains-append a xs ys)

  pub contains-keep_if :
      (p : A → Bool) (a : A) (xs : List A) → contains a (keep_if p xs) ≡ (contains a xs && p a)
  contains-keep_if p a [] = refl
  contains-keep_if p a (x ∷ xs) = elim (Bool-cases (x == a)) [
    | inl same ↦
        let q : p x ≡ p a = ap p (==→eq x a same) in
        ground (arith, q, same, contains-keep_if p a xs)
    | inr other ↦ ground (arith, other, contains-keep_if p a xs)
  ]

  pub contains-Memᴰ : (a : A) (xs : List A) → contains a xs ≡ true → Memᴰ a xs
  contains-Memᴰ a [] h = absurd (cc)
  contains-Memᴰ a (x ∷ xs) h = elim (Bool-cases (x == a)) [
    | inl same ↦ Memᴰ.head (sym (==→eq x a same))
    | inr other ↦ Memᴰ.tail (contains-Memᴰ a xs (ground (arith, other)))
  ]

  pub Memᴰ-contains : (a : A) (xs : List A) → Memᴰ a xs → contains a xs ≡ true
  Memᴰ-contains a [] m = elim m [ ]
  Memᴰ-contains a (x ∷ xs) (Memᴰ.head q) = ground (arith, e.same_iff x a, sym q)
  Memᴰ-contains a (x ∷ xs) (Memᴰ.tail m) = ground (arith, Memᴰ-contains a xs m)

  pub All-contains {κ} :
      (P : A → Type κ) (a : A) (xs : List A) → All P xs → contains a xs ≡ true → P a
  All-contains P a [] h k = absurd (cc)
  All-contains P a (x ∷ xs) h k = elim (Bool-cases (x == a)) [
    | inl same ↦ subst P (==→eq x a same) h.0
    | inr other ↦ All-contains P a xs h.1 (ground (arith, other))
  ]

module _ {ℓ κ} {A : Type ℓ} where
  -- What holds of all items holds of one.
  pub All-Memᴰ : (P : A → Type κ) (xs : List A) → All P xs → (a : A) → Memᴰ a xs → P a
  All-Memᴰ P [] h a m = elim m [ ]
  All-Memᴰ P (x ∷ xs) h a (Memᴰ.head q) = subst P (sym q) h.0
  All-Memᴰ P (x ∷ xs) h a (Memᴰ.tail m) = All-Memᴰ P xs h.1 a m

module _ {ℓ κ} {K : Type ℓ} {V : Type κ} ⦃e : Eq K⦄ where
  -- The key of an item is a key of the dictionary.
  pub has-Memᴰ : (k : K) (v : V) (d : Dict K V) → Memᴰ (k, v) d → has k d ≡ true
  unfolding lookup
  has-Memᴰ k v [] m = elim m [ ]
  has-Memᴰ k v ((there, old) ∷ d) (Memᴰ.head q) =
      let same : there ≡ k = ap (λ (x : K × V). x.0) (sym q) in
      ground (arith, e.same_iff there k, same)
  has-Memᴰ k v ((there, old) ∷ d) (Memᴰ.tail m) = ground (arith, has-Memᴰ k v d m)

  pub Memᴰ-lookup : (k : K) (v : V) (d : Dict K V) → lookup k d ≡ some v → Memᴰ (k, v) d
  unfolding lookup
  Memᴰ-lookup k v [] = λ h. absurd (cc)
  Memᴰ-lookup k v ((there, old) ∷ d) = elim (Bool-cases (there == k)) [
    | inl same ↦ rw same (λ h. Memᴰ.head (cc (==→eq there k same)))
    | inr other ↦ rw other (λ h. Memᴰ.tail (Memᴰ-lookup k v d h))
  ]

  module _ {μ} (P : V → Type μ) where
    -- What holds of every value holds after an insertion.
    pub All-insert :
        (k : K) (v : V) (d : Dict K V)
        → P v
        → All (λ (x : K × V). P x.1) d
        → All (λ (x : K × V). P x.1) (insert k v d)
    unfolding insert
    All-insert k v [] p h = (p, tt)
    All-insert k v ((there, old) ∷ d) p h = elim (Bool-cases (there == k)) [
      | inl same ↦ rw same (p, h.1)
      | inr other ↦ rw other (h.0, All-insert k v d p h.1)
    ]
