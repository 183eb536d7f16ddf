-- ===== src/Prelude/Ints.antt =====
-- Signed numbers, for the values that the source computes as floats or signed durations.
use Prim.Native.Nat.{ℕ, zero, suc, ◌+◌, ◌-◌, ◌/◌, ◌%◌}
use mathlib.Core.Path.{◌≡◌}
use mathlib.Core.Bool.{Bool, true, false, not, ◌&&◌, ◌||◌}
use native.Mathlib.Omega.{arith}
use obehy.Prelude.Tests.{ltb, leb, if◌then◌else◌}
use obehy.Prelude.Equal.{Eq, eq_of_discrete, nat_eq, ◌==◌}
use native.Mathlib.Decide.{ℕ_discrete}

-- `negsuc n` is -(n + 1).
pub data ℤ : Type 0 where
  pos : ℕ → ℤ
  negsuc : ℕ → ℤ

unfoldable pub ℤ-discrete : Discrete ℤ
ℤ-discrete = hlevel ℕ_discrete

unfoldable pub ltz : ℤ → ℤ → Bool
ltz (pos m) (pos n) = ltb m n
ltz (pos m) (negsuc n) = false
ltz (negsuc m) (pos n) = true
ltz (negsuc m) (negsuc n) = ltb n m

unfoldable pub lez : ℤ → ℤ → Bool
unfolding ltz
lez a b = not (ltz b a)

unfoldable pub neg : ℤ → ℤ
neg (pos zero) = pos zero
neg (pos (suc n)) = negsuc n
neg (negsuc n) = pos (suc n)

-- How far `a` is above `b`; 0 when it is not.
unfoldable pub above : ℤ → ℤ → ℕ
above (pos m) (pos n) = m - n
above (pos m) (negsuc n) = m + n + 1
above (negsuc m) (pos n) = 0
above (negsuc m) (negsuc n) = n - m

instance abbrev pub int_eq : Eq ℤ
int_eq = eq_of_discrete ℤ-discrete

-- `t + a`, not below 0.
unfoldable pub plus : ℕ → ℤ → ℕ
plus t (pos n) = t + n
plus t (negsuc n) = t - (n + 1)

-- `t - u` of two natural numbers.
unfoldable pub minus : ℕ → ℕ → ℤ
minus t u = if leb u t then pos (t - u) else negsuc (u - t - 1)

-- Python's `min` and `max`: the first of equals.
unfoldable pub minz : ℤ → ℤ → ℤ
unfolding ltz
minz a b = if ltz b a then b else a

unfoldable pub maxz : ℤ → ℤ → ℤ
unfolding ltz
maxz a b = if ltz a b then b else a

-- `n / d` to the nearest whole number, a half to the even one, as `timedelta` rounds.
unfoldable pub rounded : ℕ → ℕ → ℕ
rounded n zero = 0
rounded n (suc d) =
    let q = n / suc d in
    let r = n % suc d in if ltb (suc d) (r + r) || (r + r == suc d && q % 2 == 1) then q + 1 else q

pub lez_total : (a b : ℤ) → lez a b ≡ false → lez b a ≡ true
unfolding lez ltz
lez_total (pos m) (pos n) h = ground arith
lez_total (pos m) (negsuc n) h = ground arith
lez_total (negsuc m) (pos n) h = ground arith
lez_total (negsuc m) (negsuc n) h = ground arith

pub lez_refl : (a : ℤ) → lez a a ≡ true
unfolding lez ltz
lez_refl (pos m) = ground arith
lez_refl (negsuc m) = ground arith

pub lez_trans : (a b c : ℤ) → lez a b ≡ true → lez b c ≡ true → lez a c ≡ true
unfolding lez ltz
lez_trans (pos l) (pos m) (pos n) h k = ground arith
lez_trans (pos l) (pos m) (negsuc n) h k = ground arith
lez_trans (pos l) (negsuc m) (pos n) h k = ground arith
lez_trans (pos l) (negsuc m) (negsuc n) h k = ground arith
lez_trans (negsuc l) (pos m) (pos n) h k = ground arith
lez_trans (negsuc l) (pos m) (negsuc n) h k = ground arith
lez_trans (negsuc l) (negsuc m) (pos n) h k = ground arith
lez_trans (negsuc l) (negsuc m) (negsuc n) h k = ground arith

-- `a - n`
unfoldable pub less : ℤ → ℕ → ℤ
unfolding minus
less (pos m) n = minus m n
less (negsuc m) n = negsuc (m + n)
