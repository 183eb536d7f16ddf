-- ===== src/Prelude/Equal.antt =====
-- Decidable equality as an instance, for the keys of dictionaries and the `==` of the source.
use Prim.Native.Nat.{ℕ}
use Prim.Native.String.{String}
use mathlib.Core.Path.{◌≡◌, refl}
use mathlib.Core.Logic.{◌↔◌, ◌≢◌}
use mathlib.Core.Bool.{Bool, true, false, decide, decide_iff}
use text.Mathlib.Text.{◌==◌ as str_eq}
use text.Mathlib.TextEquality.{eq_iff}
use obehy.Prelude.Tests.{nat_beq, nat_beq_iff}

pub record Eq {ℓ} (T : Type ℓ) : Type ℓ where
  pub same : T → T → Bool
  pub same_iff : (x y : T) → (same x y ≡ true) ↔ (x ≡ y)

-- An equality test decides, and a decision is an equality test.
module _ {ℓ} {T : Type ℓ} where
  decide_same : (test : Eq T) (x y : T) (b : Bool) → test.same x y ≡ b → Dec (x ≡ y)
  decide_same test x y true h = yes ((test.same_iff x y).0 h)
  decide_same test x y false h = no (λ p. cc ((test.same_iff x y).1 p))

  unfoldable pub discrete_of_eq : Eq T → Discrete T
  unfolding decide_same
  discrete_of_eq test x y = decide_same test x y (test.same x y) refl

  abbrev pub eq_of_discrete : Discrete T → Eq T
  eq_of_discrete d = record { same_iff = λ x y. decide_iff (d x y); same = λ x y. decide (d x y) }

instance abbrev pub string_eq : Eq String
string_eq = record { same_iff = eq_iff; same = str_eq }

unfoldable pub String_discrete : Discrete String
unfolding discrete_of_eq
String_discrete = discrete_of_eq string_eq

instance abbrev pub nat_eq : Eq ℕ
nat_eq = record { same_iff = nat_beq_iff; same = nat_beq }

-- Python's `==`.
infix 50 ◌==◌
abbrev pub ◌==◌ {ℓ} : {T : Type ℓ} ⦃test : Eq T⦄ → T → T → Bool
◌==◌ ⦃test⦄ = test.same

module _ {ℓ} {A : Type ℓ} where
  pub ==_refl : ⦃e : Eq A⦄ → (a : A) → (a == a) ≡ true
  ==_refl ⦃e⦄ a = (e.same_iff a a).1 refl

  pub ==→eq : ⦃e : Eq A⦄ → (a b : A) → (a == b) ≡ true → a ≡ b
  ==→eq ⦃e⦄ a b = (e.same_iff a b).0

  pub ==_ne : ⦃e : Eq A⦄ → (a b : A) → a ≢ b → (a == b) ≡ false
  ==_ne ⦃e⦄ a b h = go (a == b) refl
    where
      go : (c : Bool) → (a == b) ≡ c → (a == b) ≡ false
      go true q = absurd (h ((e.same_iff a b).0 q))
      go false q = q
