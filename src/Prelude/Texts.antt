-- ===== src/Prelude/Texts.antt =====
-- The order of Python's `str`, by code points.
use Prim.Native.Char.{Char, code}
use Prim.Native.Nat.{Ordering}
use Prim.Native.String.compare
use Prim.Native.String.{String, [], ◌∷◌, compare}
use mathlib.Core.Path.{◌≡◌, refl}
use mathlib.Core.Bool.{Bool, true, false}
use native.Mathlib.Omega.{arith}
use text.Mathlib.TextEquality.{Char-path}
use obehy.Prelude.Tests.{ltb, if◌then◌else◌}

abbrev is_lt : Ordering → Bool
is_lt Ordering.lt = true
is_lt _ = false

-- `a < b` on texts.
unfoldable pub str_lt : String → String → Bool
str_lt a b = is_lt (compare a b)

str_lt-cons :
    (c d : Char) (s t : String)
    → str_lt (c ∷ s) (d ∷ t) ≡ (
        if ltb (code c) (code d) then true else if ltb (code d) (code c) then false else str_lt s t)
unfolding str_lt
str_lt-cons c d s t = rw (compare.cons-cons c d s t) (ground arith)

true_ne : true ≡ false → ⊥
true_ne h = cc

false_ne : false ≡ true → ⊥
false_ne h = cc

pub str_lt-asym : (s t : String) → str_lt s t ≡ true → str_lt t s ≡ false
unfolding str_lt
str_lt-asym [] [] h = refl
str_lt-asym [] (d ∷ t) h = rw (compare.cons-nil d t) refl
str_lt-asym (c ∷ s) [] h = absurd (false_ne (rw (compare.cons-nil c s) at h))
str_lt-asym (c ∷ s) (d ∷ t) h = step (str_lt-asym s t) (rw (str_lt-cons c d s t) at h)
  where
    step :
        (str_lt s t ≡ true → str_lt t s ≡ false)
        → (if ltb (code c) (code d)
            then true
            else if ltb (code d) (code c)
            then false
            else str_lt s t)
          ≡ true
        → str_lt (d ∷ t) (c ∷ s) ≡ false
    step rest h = rw (str_lt-cons d c t s) (ground (arith, rest))

pub not_lt_trans : (r s t : String) → str_lt s r ≡ false → str_lt t s ≡ false → str_lt t r ≡ false
unfolding str_lt
not_lt_trans [] s [] h k = refl
not_lt_trans [] s (d ∷ t) h k = rw (compare.cons-nil d t) refl
not_lt_trans (b ∷ r) [] t h k = absurd (true_ne (rw (compare.nil-cons b r) at h))
not_lt_trans (b ∷ r) (c ∷ s) [] h k = absurd (true_ne (rw (compare.nil-cons c s) at k))
not_lt_trans (b ∷ r) (c ∷ s) (d ∷ t) h k =
    step (not_lt_trans r s t) (rw (str_lt-cons c b s r) at h) (rw (str_lt-cons d c t s) at k)
  where
    step :
        (str_lt s r ≡ false → str_lt t s ≡ false → str_lt t r ≡ false)
        → (if ltb (code c) (code b)
            then true
            else if ltb (code b) (code c)
            then false
            else str_lt s r)
          ≡ false
        → (if ltb (code d) (code c)
            then true
            else if ltb (code c) (code d)
            then false
            else str_lt t s)
          ≡ false
        → str_lt (d ∷ t) (b ∷ r) ≡ false
    step rest h k = rw (str_lt-cons d b t r) (ground (arith, rest))

-- Of two texts neither before the other, each is the other.
pub str_lt-antisym : (s t : String) → str_lt s t ≡ false → str_lt t s ≡ false → s ≡ t
unfolding str_lt
str_lt-antisym [] [] h k = refl
str_lt-antisym [] (d ∷ t) h k = absurd (true_ne (rw (compare.nil-cons d t) at h))
str_lt-antisym (c ∷ s) [] h k = absurd (true_ne (rw (compare.nil-cons c s) at k))
str_lt-antisym (c ∷ s) (d ∷ t) h k =
    step (str_lt-antisym s t) (rw (str_lt-cons c d s t) at h) (rw (str_lt-cons d c t s) at k)
  where
    step :
        (str_lt s t ≡ false → str_lt t s ≡ false → s ≡ t)
        → (if ltb (code c) (code d)
            then true
            else if ltb (code d) (code c)
            then false
            else str_lt s t)
          ≡ false
        → (if ltb (code d) (code c)
            then true
            else if ltb (code c) (code d)
            then false
            else str_lt t s)
          ≡ false
        → c ∷ s ≡ d ∷ t
    step rest h k =
        let heads : c ≡ d = Char-path c d (ground arith) in
        let tails : s ≡ t = rest (ground (arith, heads)) (ground (arith, heads)) in
        λ i. heads i ∷ tails i
