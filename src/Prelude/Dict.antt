-- ===== src/Prelude/Dict.antt =====
-- Python's `dict` as an association list: a key that is set again keeps its place.
use mathlib.Core.Path.{◌≡◌, refl}
use mathlib.Core.Logic.{◌⊎◌, inl, inr}
use mathlib.Core.Bool.{Bool, true, false}
use mathlib.Core.Option.{Option, none, some}
use mathlib.Core.List.{List, [], ◌∷◌, ◌++◌}
use native.Mathlib.Omega.{arith}
use obehy.Prelude.Tests.{if◌then◌else◌, is_some, or_else, Bool-cases}
use obehy.Prelude.Equal.{Eq, ◌==◌, ==→eq, ==_refl}

abbrev pub Dict {ℓ κ} : Type ℓ → Type κ → Type (ℓ ⊔ κ)
Dict K V = List (K × V)

module _ {ℓ κ} {K : Type ℓ} {V : Type κ} ⦃e : Eq K⦄ where
  -- d.get(key)
  unfoldable pub lookup : K → Dict K V → Option V
  lookup key [] = none
  lookup key ((there, item) ∷ rest) = if there == key then some item else lookup key rest

  -- del d[key], d.pop(key, None)
  unfoldable pub remove : K → Dict K V → Dict K V
  remove key [] = []
  remove key ((there, item) ∷ rest) =
      let others = remove key rest in if there == key then others else (there, item) ∷ others

  -- d[key] = item
  unfoldable pub insert : K → V → Dict K V → Dict K V
  insert key item [] = (key, item) ∷ []
  insert key item ((there, old) ∷ rest) =
      if there == key then (there, item) ∷ rest else (there, old) ∷ insert key item rest

  -- Each entry changed in place, or deleted where `f` has no value for it.
  unfoldable pub filter_map : (K → V → Option V) → Dict K V → Dict K V
  unfolding remove
  filter_map f [] = []
  filter_map f ((k, v) ∷ m) = elim (f k v) [
    | none ↦ remove k (filter_map f m)
    | some w ↦ (k, w) ∷ filter_map f m
  ]

  abbrev pub has : K → Dict K V → Bool
  has k m = is_some (lookup k m)

  pub lookup-insert :
      (key j : K) (item : V) (d : Dict K V)
      → lookup j (insert key item d) ≡ (if key == j then some item else lookup j d)
  unfolding lookup insert
  lookup-insert key j item ((there, old) ∷ rest) = ground (
    lookup-insert key j item rest,
    arith,
    e.same_iff there key,
    e.same_iff there j,
    e.same_iff key j,
  )
  lookup-insert key j item [] = refl

  pub lookup-remove :
      (k j : K) (m : Dict K V) → lookup j (remove k m) ≡ (if k == j then none else lookup j m)
  unfolding lookup remove
  lookup-remove k j [] = ground arith
  lookup-remove k j ((i, w) ∷ m) =
      ground (arith, e.same_iff k j, e.same_iff i k, e.same_iff i j, lookup-remove k j m)

  abbrev pub bind_at : (K → V → Option V) → K → Option V → Option V
  bind_at f k none = none
  bind_at f k (some v) = f k v

  pub lookup-filter_map :
      (f : K → V → Option V) (j : K) (m : Dict K V)
      → lookup j (filter_map f m) ≡ bind_at f j (lookup j m)
  unfolding lookup filter_map
  lookup-filter_map f j [] = refl
  lookup-filter_map f j ((i, v) ∷ m) =
      ground (arith, e.same_iff i j, lookup-filter_map f j m, lookup-remove i j (filter_map f m))

  pub lookup-insert_self : (k : K) (v : V) (m : Dict K V) → lookup k (insert k v m) ≡ some v
  lookup-insert_self k v m = rw (lookup-insert k k v m, ==_refl k)

  pub has-insert_self : (k : K) (v : V) (m : Dict K V) → has k (insert k v m) ≡ true
  has-insert_self k v m = rw (lookup-insert_self k v m)

  pub has-insert : (k j : K) (v : V) (m : Dict K V) → has j m ≡ true → has j (insert k v m) ≡ true
  has-insert k j v m h = rw (lookup-insert k j v m) (ground arith)

  -- What stands under a key after an insertion is new, or stood there before.
  pub lookup-insert_cases :
      (k j : K) (v w : V) (m : Dict K V)
      → lookup j (insert k v m) ≡ some w
      → (k ≡ j) × (v ≡ w) ⊎ (lookup j m ≡ some w)
  lookup-insert_cases k j v w m h = elim (Bool-cases (k == j)) [
    | inl same ↦
        let p : some v ≡ some w = rw (lookup-insert k j v m, same) at h in inl (==→eq k j same, cc)
    | inr other ↦ inr (rw (lookup-insert k j v m, other) at h)
  ]

  pub lookup-remove_cases :
      (k j : K) (w : V) (m : Dict K V)
      → lookup j (remove k m) ≡ some w
      → ((k == j) ≡ false) × (lookup j m ≡ some w)
  lookup-remove_cases k j w m h = elim (Bool-cases (k == j)) [
    | inl same ↦ let p : none ≡ some w = rw (lookup-remove k j m, same) at h in absurd (cc)
    | inr other ↦ (other, rw (lookup-remove k j m, other) at h)
  ]

pub ruleset dict_laws = (lookup-insert, lookup-remove, lookup-filter_map)

module _ {ℓ κ} {K : Type ℓ} {V : Type κ} ⦃e : Eq K⦄ (f : K → V → Option V) (j : K)
    (m : Dict K V) where
  -- What stands under a key after `filter_map` came from what stood there.
  pub lookup-filter_map_cases :
      (w : V)
      → lookup j (filter_map f m) ≡ some w
      → (v : V) × (lookup j m ≡ some v) × (f j v ≡ some w)
  lookup-filter_map_cases w h =
      let p : bind_at f j (lookup j m) ≡ some w = rw (lookup-filter_map f j m) at h in
      go (lookup j m) refl p
    where
      go :
          (x : Option V)
          → lookup j m ≡ x
          → bind_at f j x ≡ some w
          → (v : V) × (lookup j m ≡ some v) × (f j v ≡ some w)
      go none q p = absurd (cc)
      go (some v) q p = (v, q, p)

  pub lookup-filter_map_kept :
      (v w : V) → lookup j m ≡ some v → f j v ≡ some w → lookup j (filter_map f m) ≡ some w
  lookup-filter_map_kept v w h p = rw (lookup-filter_map f j m, h) p

-- The lists of a `defaultdict(list)`.
module _ {ℓ κ} {K : Type ℓ} {A : Type κ} ⦃e : Eq K⦄ where
  -- The list under a key.
  abbrev pub list_at : K → Dict K (List A) → List A
  list_at key d = or_else (lookup key d) []

  -- d[key].append(item)
  unfoldable pub append_at : K → A → Dict K (List A) → Dict K (List A)
  append_at key item d = insert key (list_at key d ++ item ∷ []) d

  pub list_at-append_at :
      (key j : K) (item : A) (d : Dict K (List A))
      → list_at j (append_at key item d)
        ≡ (if key == j then list_at j d ++ item ∷ [] else list_at j d)
  unfolding append_at
  list_at-append_at key j item d =
      ground (arith, lookup-insert key j (list_at key d ++ item ∷ []) d, e.same_iff key j)
