-- ===== src/Prelude/Groups.antt =====
-- A list by a key, as a `defaultdict(list)` filled in a loop: the items of each key, in order.
use mathlib.Core.Path.{◌≡◌, refl, ap, sym, subst, ◌∙◌}
use mathlib.Core.Logic.{inl, inr}
use mathlib.Core.Bool.{true, false}
use mathlib.Core.Option.{Option, none, some}
use mathlib.Core.List.{List, [], ◌∷◌, ◌++◌, append_assoc, append-nil, Memᴰ}
use mathlib.Core.List.Memᴰ
use native.Mathlib.Omega.{arith}
use obehy.Prelude.Tests.{Bool-cases, is_some, or_else}
use obehy.Prelude.Equal.{Eq, ◌==◌, ==→eq}
use obehy.Prelude.Lists.{All, keep_if}
use obehy.Prelude.Dict.{
  Dict, lookup, insert, has, list_at, append_at, list_at-append_at, has-insert, has-insert_self,
}
use obehy.Prelude.Items.{All-insert, All-Memᴰ, Memᴰ-lookup, has-Memᴰ}

module _ {ℓ κ} {K : Type ℓ} {V : Type κ} ⦃e : Eq K⦄ where
  -- Each key stands once.
  abbrev pub Unique : Dict K V → Type 0
  Unique [] = Unit
  Unique ((k, v) ∷ d) = (has k d ≡ false) × Unique d

  has-insert_other :
      (k j : K) (v : V) (d : Dict K V)
      → (k == j) ≡ false
      → has j d ≡ false
      → has j (insert k v d) ≡ false
  unfolding insert lookup
  has-insert_other k j v [] h g = ground (arith, h)
  has-insert_other k j v ((i, w) ∷ d) h g =
      ground (arith, h, g, e.same_iff i k, e.same_iff i j, e.same_iff k j, has-insert_other k j v d)

  pub Unique-insert : (k : K) (v : V) (d : Dict K V) → Unique d → Unique (insert k v d)
  unfolding insert lookup
  Unique-insert k v [] u = (refl, tt)
  Unique-insert k v ((j, w) ∷ d) u = elim (Bool-cases (j == k)) [
    | inl same ↦ rw same u
    | inr other ↦ rw other (
      has-insert_other k j v d (ground (arith, other, e.same_iff k j, e.same_iff j k)) u.0,
      Unique-insert k v d u.1,
    )
  ]

  pub lookup-Memᴰ : (k : K) (v : V) (d : Dict K V) → Unique d → Memᴰ (k, v) d → lookup k d ≡ some v
  unfolding lookup
  lookup-Memᴰ k v [] u m = elim m [ ]
  lookup-Memᴰ k v ((j, w) ∷ d) u (Memᴰ.head q) =
      let keys : j ≡ k = ap (λ (x : K × V). x.0) (sym q) in
      let values : w ≡ v = ap (λ (x : K × V). x.1) (sym q) in
      ground (arith, keys, values, e.same_iff j k)
  lookup-Memᴰ k v ((j, w) ∷ d) u (Memᴰ.tail m) = elim (Bool-cases (j == k)) [
    | inl same ↦
        let there : has j d ≡ true =
          subst (λ (i : K). has i d ≡ true) (sym (==→eq j k same)) (has-Memᴰ k v d m) in
        absurd (cc (u.0))
    | inr other ↦ rw other (lookup-Memᴰ k v d u.1 m)
  ]

module _ {ℓ κ} {K : Type ℓ} {A : Type κ} ⦃e : Eq K⦄ (key : A → K) where
  -- `for x in xs: groups[key(x)].append(x)`
  unfoldable pub group_by : Dict K (List A) → List A → Dict K (List A)
  unfolding append_at
  group_by groups [] = groups
  group_by groups (x ∷ xs) = group_by (append_at (key x) x groups) xs

  abbrev pub of_key : K → List A → List A
  of_key k = keep_if (λ x. key x == k)

  list_at-group_by :
      (k : K) (groups : Dict K (List A)) (xs : List A)
      → list_at k (group_by groups xs) ≡ list_at k groups ++ of_key k xs
  unfolding group_by
  list_at-group_by k groups [] = sym (append-nil (list_at k groups))
  list_at-group_by k groups (x ∷ xs) = elim (Bool-cases (key x == k)) [
    | inl same ↦
        list_at-group_by k (append_at (key x) x groups) xs
        ∙ rw (list_at-append_at (key x) k x groups, same)
            (append_assoc (list_at k groups) (x ∷ []) (of_key k xs))
    | inr other ↦
        list_at-group_by k (append_at (key x) x groups) xs
        ∙ rw (list_at-append_at (key x) k x groups, other) refl
  ]

  Unique-group_by :
      (groups : Dict K (List A)) (xs : List A) → Unique groups → Unique (group_by groups xs)
  unfolding group_by append_at
  Unique-group_by groups [] u = u
  Unique-group_by groups (x ∷ xs) u =
      Unique-group_by (append_at (key x) x groups) xs
        (Unique-insert (key x) (list_at (key x) groups ++ x ∷ []) groups u)

  -- The group under a key is the items of that key, in order.
  pub group_by-of_key :
      (xs : List A) (k : K) (group : List A)
      → Memᴰ (k, group) (group_by [] xs)
      → group ≡ of_key k xs
  unfolding lookup
  group_by-of_key xs k group m =
      let found = lookup-Memᴰ k group (group_by [] xs) (Unique-group_by [] xs tt) m in
      sym (ap (λ (o : Option (List A)). or_else o []) found) ∙ list_at-group_by k [] xs

  has-group_by :
      (groups : Dict K (List A)) (xs : List A) (k : K)
      → has k groups ≡ true
      → has k (group_by groups xs) ≡ true
  unfolding group_by append_at
  has-group_by groups [] k h = h
  has-group_by groups (x ∷ xs) k h =
      has-group_by (append_at (key x) x groups) xs k
        (has-insert (key x) k (list_at (key x) groups ++ x ∷ []) groups h)

  -- Every item has its group.
  pub group_by-into :
      (groups : Dict K (List A)) (xs : List A) (x : A)
      → Memᴰ x xs
      → (group : List A) × Memᴰ (key x, group) (group_by groups xs)
  unfolding group_by
  group_by-into groups [] x m = elim m [ ]
  group_by-into groups (y ∷ ys) x (Memᴰ.tail m) = group_by-into (append_at (key y) y groups) ys x m
  group_by-into groups (y ∷ ys) x (Memᴰ.head q) = go (lookup (key x) rest) refl there
    where
      rest : Dict K (List A)
      rest = group_by (append_at (key y) y groups) ys

      first : has (key y) (append_at (key y) y groups) ≡ true
      first = unfold append_at in has-insert_self (key y) (list_at (key y) groups ++ y ∷ []) groups

      there : has (key x) rest ≡ true
      there =
          subst (λ (z : A). has (key z) rest ≡ true) (sym q)
            (has-group_by (append_at (key y) y groups) ys (key y) first)

      go :
          (o : Option (List A))
          → lookup (key x) rest ≡ o
          → is_some o ≡ true
          → (group : List A) × Memᴰ (key x, group) rest
      go none p h = absurd (cc)
      go (some group) p h = (group, Memᴰ-lookup (key x) group rest p)

  Nonempty : List A → Type κ
  Nonempty xs = (x : A) × Memᴰ x xs

  group_by-Nonempty :
      (groups : Dict K (List A)) (xs : List A)
      → All (λ (g : K × List A). Nonempty g.1) groups
      → All (λ (g : K × List A). Nonempty g.1) (group_by groups xs)
  unfolding group_by append_at Nonempty
  group_by-Nonempty groups [] h = h
  group_by-Nonempty groups (x ∷ xs) h = group_by-Nonempty (append_at (key x) x groups) xs (
      All-insert Nonempty (key x) (list_at (key x) groups ++ x ∷ []) groups
        (x, Memᴰ.append_right (list_at (key x) groups) (Memᴰ.head refl)) h)

  -- No group is empty.
  pub group_by-item :
      (xs : List A) (k : K) (group : List A)
      → Memᴰ (k, group) (group_by [] xs)
      → (x : A) × Memᴰ x group
  unfolding Nonempty
  group_by-item xs k group m =
      All-Memᴰ (λ (g : K × List A). Nonempty g.1) (group_by [] xs) (group_by-Nonempty [] xs tt)
        (k, group) m
