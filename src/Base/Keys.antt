-- ===== src/Base/Keys.antt =====
-- Decidable keys as an interface, and the fixed-width integers that serve as keys. An `int32` that
-- the source only stores and compares is an integer in two constructors; `negsuc n` is -(n + 1).
use Prim.Native.Nat.{ℕ}
use Prim.Native.Nat.Ordering.{lt, eq, gt}
use Prim.Native.String.{String, compare}
use mathlib.Core.Path.{◌≡◌, refl}
use mathlib.Core.Logic.{◌↔◌}
use mathlib.Core.Bool.{Bool, true, false}
use native.Mathlib.Omega.{arith}
use text.Mathlib.Text.{◌==◌ as str_eq}
use text.Mathlib.TextEquality.{eq_iff}
use headless_minecraft.Base.Tests.{nat_beq, nat_beq_iff, leb}

pub record Key {ℓ} (A : Type ℓ) : Type ℓ where
  pub same : A → A → Bool
  pub same_iff : (a b : A) → (same a b ≡ true) ↔ (a ≡ b)

infix 50 ◌==◌
abbrev pub ◌==◌ {ℓ} : {K : Type ℓ} ⦃key : Key K⦄ → K → K → Bool
◌==◌ ⦃key⦄ x y = key.same x y

module _ {ℓ} {A : Type ℓ} ⦃e : Key A⦄ where
  pub ==_iff : (a b : A) → ((a == b) ≡ true) ↔ (a ≡ b)
  ==_iff a b = e.same_iff a b

  pub ==_apart : (a b : A) → (a == b) ≡ false → a ≡ b → ⊥
  ==_apart a b h m = ground (arith, h, (e.same_iff a b).1 m)

  pub ==_refl : (a : A) → (a == a) ≡ true
  ==_refl a = (e.same_iff a a).1 refl

pub data ℤ : Type 0 where
  pos : ℕ → ℤ
  negsuc : ℕ → ℤ

abbrev pub int_beq : ℤ → ℤ → Bool
int_beq (pos a) (pos b) = nat_beq a b
int_beq (negsuc a) (negsuc b) = nat_beq a b
int_beq _ _ = false

pub int_beq_iff : (a b : ℤ) → (int_beq a b ≡ true) ↔ (a ≡ b)
int_beq_iff (pos a) (pos b) = ground arith
int_beq_iff (pos a) (negsuc b) = ground arith
int_beq_iff (negsuc a) (pos b) = ground arith
int_beq_iff (negsuc a) (negsuc b) = ground arith

abbrev pub int_leb : ℤ → ℤ → Bool
int_leb (pos a) (pos b) = leb a b
int_leb (negsuc a) (pos b) = true
int_leb (pos a) (negsuc b) = false
int_leb (negsuc a) (negsuc b) = leb b a

instance abbrev pub nat_key : Key ℕ
nat_key = record { same = nat_beq; same_iff = nat_beq_iff }

instance abbrev pub int_key : Key ℤ
int_key = record { same = int_beq; same_iff = int_beq_iff }

instance abbrev pub string_key : Key String
string_key = record { same = str_eq; same_iff = eq_iff }

-- `<=` on strings.
abbrev pub str_leb : String → String → Bool
str_leb a b = elim (compare a b) [ lt ↦ true | eq ↦ true | gt ↦ false ]
