-- ===== src/Prelude/Raises.antt =====
-- Code that may raise an exception (a failed lookup, a value error): `none` is the exception,
-- which ends the worker's step.
use mathlib.Core.Path.{◌≡◌, refl}
use mathlib.Core.Option.{Option, none, some}

abbrev pub Raises {ℓ} : Type ℓ → Type ℓ
Raises A = Option A

infixl 5 ◌>>=◌ ◌>>◌
abbrev pub ◌>>=◌ {ℓ κ} : {A : Type ℓ} {B : Type κ} → Raises A → (A → Raises B) → Raises B
none >>= f = none
some a >>= f = f a

abbrev pub ◌>>◌ {ℓ κ} : {A : Type ℓ} {B : Type κ} → Raises A → Raises B → Raises B
m >> k = m >>= λ _. k

-- Inversion of a bind that did not raise.
pub >>=-eq-some {ℓ κ} :
    {A : Type ℓ} {B : Type κ} (m : Raises A) (f : A → Raises B) {b : B}
    → (m >>= f) ≡ some b
    → (a : A) × (m ≡ some a) × (f a ≡ some b)
>>=-eq-some (some a) f h = (a, refl, h)
>>=-eq-some none f h = cc

module _ {ℓ} {A : Type ℓ} where
  -- The code returns.
  abbrev pub Returns : Raises A → Type ℓ
  Returns m = (a : A) × (m ≡ some a)

module _ {ℓ κ} {A : Type ℓ} where
  -- The code returns, and the result has the property.
  abbrev pub Gives : Raises A → (A → Type κ) → Type (ℓ ⊔ κ)
  Gives m P = (a : A) × (m ≡ some a) × P a

module _ {ℓ κ} {A : Type ℓ} {B : Type κ} where
  pub bind-Returns :
      (m : Raises A) (f : A → Raises B) → Returns m → ((a : A) → Returns (f a)) → Returns (m >>= f)
  bind-Returns m f (a, e) k = let (b, q) = k a in (b, rw e q)

module _ {ℓ κ ν} {A : Type ℓ} {B : Type κ} {Q : B → Type ν} where
  pub then-Gives :
      (m : Raises A) (f : A → Raises B) → Returns m → ((a : A) → Gives (f a) Q) → Gives (m >>= f) Q
  then-Gives m f (a, e) k = let (b, q, r) = k a in (b, rw e q, r)

module _ {ℓ κ μ ν} {A : Type ℓ} {B : Type κ} {P : A → Type μ} {Q : B → Type ν} where
  pub bind-Gives :
      (m : Raises A) (f : A → Raises B)
      → Gives m P
      → ((a : A) → P a → Gives (f a) Q)
      → Gives (m >>= f) Q
  bind-Gives m f (a, e, p) k = let (b, q, r) = k a p in (b, rw e q, r)
