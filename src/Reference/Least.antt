-- ===== src/Reference/Least.antt =====
-- Which key `_best` of src/obehy/reference/registry.py finds.
use mathlib.Core.List.{Memᴰ}
use mathlib.Core.List.Memᴰ
use obehy.Prelude.{
  String, Bool, true, false, ◌≡◌, refl, sym, subst, Option, none, some, List, [], ◌∷◌,
  if◌then◌else◌, Bool-cases, string_eq, inl, inr, arith,
}
use obehy.Prelude.Lists.{All, keep_if}
use obehy.Prelude.Texts.{str_lt-asym, not_lt_trans}
use obehy.Model.Facts.{Date}
use obehy.Reference.Registry.{RegistryKey, valid, better, least_key, best_of, best, key_eq}

not_better_trans :
    (i j k : RegistryKey) → better j i ≡ false → better k j ≡ false → better k i ≡ false
unfolding better
not_better_trans i j k h l = ground (arith, not_lt_trans i.vehicle_id j.vehicle_id k.vehicle_id)

better-asym : (j k : RegistryKey) → better j k ≡ true → better k j ≡ false
unfolding better
better-asym j k h = ground (arith, str_lt-asym j.vehicle_id k.vehicle_id)

better_irrefl : (k : RegistryKey) → better k k ≡ false
better_irrefl k = elim (Bool-cases (better k k)) [ inl h ↦ better-asym k k h | inr h ↦ h ]

abbrev NoneBetter : RegistryKey → List RegistryKey → Type 0
NoneBetter k js = All (λ j. better j k ≡ false) js

NoneBetter-trans :
    (i j : RegistryKey) (ks : List RegistryKey)
    → better j i ≡ false
    → NoneBetter j ks
    → NoneBetter i ks
NoneBetter-trans i j [] h a = tt
NoneBetter-trans i j (k ∷ ks) h a = (not_better_trans i j k h a.0, NoneBetter-trans i j ks h a.1)

abbrev Least : RegistryKey → List RegistryKey → RegistryKey → Type 0
Least k js l = Memᴰ l (k ∷ js) × (better k l ≡ false) × NoneBetter l js

least_key-cons :
    (k j : RegistryKey) (js : List RegistryKey) (b : Bool)
    → better j k ≡ b
    → least_key k (j ∷ js) ≡ least_key (if b then j else k) js
unfolding least_key
least_key-cons k j js b h = rw h refl

-- The key that `min` takes is one of them, and none is better.
least_key-best : (k : RegistryKey) (js : List RegistryKey) → Least k js (least_key k js)
unfolding least_key
least_key-best k [] = (Memᴰ.head refl, better_irrefl k, tt)
least_key-best k (j ∷ js) = elim (Bool-cases (better j k)) [
  | inl first ↦
      let l = least_key j js in
      let (m, own, rest) = least_key-best j js in
      subst (Least k (j ∷ js)) (sym (least_key-cons k j js true first))
        (Memᴰ.tail m, not_better_trans l j k own (better-asym j k first), (own, rest))
  | inr later ↦
      let l = least_key k js in
      let (m, own, rest) = least_key-best k js in
      subst (Least k (j ∷ js)) (sym (least_key-cons k j js false later)) (
        elim (Memᴰ.cases_cons m) [
          | inl e ↦ Memᴰ.head e
          | inr in_rest ↦ Memᴰ.tail (Memᴰ.tail in_rest)
        ],
        own,
        (not_better_trans l k j own later, rest),
      )
]

keep_if-from :
    (day : Date) (keys : List RegistryKey) (k : RegistryKey)
    → Memᴰ k (keep_if (valid day) keys)
    → Memᴰ k keys × (valid day k ≡ true)
keep_if-from day [] k = λ m. absurd (Memᴰ.not-nil m)
keep_if-from day (j ∷ keys) k = elim (Bool-cases (valid day j)) [
  | inl now ↦ rw now (λ m. elim (Memᴰ.cases_cons m) [
    | inl e ↦ (Memᴰ.head e, subst (λ (x : RegistryKey). valid day x ≡ true) (sym e) now)
    | inr later ↦ let (there, v) = keep_if-from day keys k later in (Memᴰ.tail there, v)
  ])
  | inr past ↦ rw past (λ m. let (there, v) = keep_if-from day keys k m in (Memᴰ.tail there, v))
]

keep_if-into :
    (day : Date) (keys : List RegistryKey) (k : RegistryKey)
    → Memᴰ k keys
    → valid day k ≡ true
    → Memᴰ k (keep_if (valid day) keys)
keep_if-into day [] k m v = m
keep_if-into day (j ∷ keys) k m v = elim (Memᴰ.cases_cons m) [
  | inl e ↦
      let now : valid day j ≡ true = subst (λ (x : RegistryKey). valid day x ≡ true) e v in
      rw now (Memᴰ.head e)
  | inr later ↦ elim (Bool-cases (valid day j)) [
    | inl now ↦ rw now (Memᴰ.tail (keep_if-into day keys k later v))
    | inr past ↦ rw past (keep_if-into day keys k later v)
  ]
]

-- The vehicle of a valid key that no valid key is better than.
pub record IsBest (day : Date) (keys : List RegistryKey) (found : String) : Type 0 where
  pub key : RegistryKey
  pub among : Memᴰ key keys
  pub now : valid day key ≡ true
  pub names : key.vehicle_id ≡ found
  pub first : (j : RegistryKey) → Memᴰ j keys → valid day j ≡ true → better j key ≡ false

abbrev pub NoneValid : Date → List RegistryKey → Type 0
NoneValid day keys = (k : RegistryKey) → Memᴰ k keys → valid day k ≡ false

abbrev pub Finds : Date → List RegistryKey → Option String → Type 0
Finds day keys none = NoneValid day keys
Finds day keys (some found) = IsBest day keys found

NoneBetter-Memᴰ :
    (k : RegistryKey) (js : List RegistryKey)
    → NoneBetter k js
    → (j : RegistryKey) → Memᴰ j js
    → better j k ≡ false
NoneBetter-Memᴰ k [] h j m = elim m [ ]
NoneBetter-Memᴰ k (i ∷ js) h j (Memᴰ.head e) =
    subst (λ (x : RegistryKey). better x k ≡ false) (sym e) h.0
NoneBetter-Memᴰ k (i ∷ js) h j (Memᴰ.tail m) = NoneBetter-Memᴰ k js h.1 j m

best-Finds : (keys : List RegistryKey) (day : Date) → Finds day keys (best keys day)
unfolding best best_of
best-Finds keys day = go (keep_if (valid day) keys) refl
  where
    go : (ks : List RegistryKey) → keep_if (valid day) keys ≡ ks → Finds day keys (best_of ks)
    go [] e = λ k m. elim (Bool-cases (valid day k)) [
      | inl now ↦ absurd (
          Memᴰ.not-nil
            (subst (λ (l : List RegistryKey). Memᴰ k l) e (keep_if-into day keys k m now)))
      | inr past ↦ past
    ]
    go (k ∷ ks) e =
        let (m, own, rest) = least_key-best k ks in
        let (there, now) =
          keep_if-from day keys (least_key k ks)
            (subst (λ (l : List RegistryKey). Memᴰ (least_key k ks) l) (sym e) m) in
        record {
          key = least_key k ks;
          among = there;
          now = now;
          names = refl;
          first = λ j n v.
              NoneBetter-Memᴰ (least_key k ks) (k ∷ ks) (own, rest) j
                (subst (λ (l : List RegistryKey). Memᴰ j l) e (keep_if-into day keys j n v));
        }

pub best-some :
    (keys : List RegistryKey) (day : Date) (found : String)
    → best keys day ≡ some found
    → IsBest day keys found
best-some keys day found e = subst (Finds day keys) e (best-Finds keys day)

pub best-none : (keys : List RegistryKey) (day : Date) → best keys day ≡ none → NoneValid day keys
best-none keys day e = subst (Finds day keys) e (best-Finds keys day)
