-- ===== src/Base/Equality.antt =====
-- Go's `==` on the types that the program compares, as one operator.
use mathlib.Core.Path.{◌≡◌, refl}
use mathlib.Core.Logic.{◌↔◌}
use mathlib.Core.Bool.{Bool, true}
use Prim.Native.Nat.{ℕ}
use Prim.Native.String.{String}
use native.Mathlib.Omega.{arith}
use text.Mathlib.Text.{◌==◌ as str_eq}
use text.Mathlib.TextEquality.{eq_iff}
use baleen_engine.Base.Tests.{nat_beq}

-- `test` decides equality.
pub record Eq {ℓ} (A : Type ℓ) : Type ℓ where
  pub test : A → A → Bool
  pub test_iff : (x y : A) → (test x y ≡ true) ↔ (x ≡ y)

module _ {ℓ} {A : Type ℓ} ⦃same : Eq A⦄ where
  infix 50 ◌==◌
  abbrev pub ◌==◌ : A → A → Bool
  ◌==◌ = same.test

instance abbrev pub string_eq : Eq String
string_eq = record { test = str_eq; test_iff = eq_iff }

pub nat_beq_iff : (x y : ℕ) → (nat_beq x y ≡ true) ↔ (x ≡ y)
nat_beq_iff x y = ground arith

instance abbrev pub nat_eq : Eq ℕ
nat_eq = record { test = nat_beq; test_iff = nat_beq_iff }

-- The law at hand for `ground`.
module _ {ℓ} {A : Type ℓ} ⦃e : Eq A⦄ where
  pub ==_iff : (a b : A) → ((a == b) ≡ true) ↔ (a ≡ b)
  ==_iff a b = e.test_iff a b

  pub ==_self : (a : A) → (a == a) ≡ true
  ==_self a = (e.test_iff a a).1 refl
