-- ===== src/Prelude/Real.antt =====
-- The program's `float`: a type with the operations that the code applies to it. Nothing is assumed
-- of the operations here; a theorem that needs a law of the order takes it as a hypothesis, and the
-- accounting theorems are stated over exact integer amounts.
use Prim.Native.Nat.{ℕ}
use mathlib.Core.Path.{◌≡◌}
use mathlib.Core.Bool.{Bool, true}
use native.Mathlib.Omega.{arith}
use delta_quant.Prelude.Bools.{if◌then◌else◌}
use delta_quant.Prelude.Int.{ℤ, pos, ◌+ℤ◌, ◌-ℤ◌, ◌*ℤ◌, ltb_ℤ, leb_ℤ}

pub record Real {ℓ} (R : Type ℓ) : Type ℓ where
  pub of_nat : ℕ → R
  pub add : R → R → R
  pub sub : R → R → R
  pub mul : R → R → R
  pub div : R → R → R
  pub lt : R → R → Bool
  pub le : R → R → Bool

module _ {ℓ} {R : Type ℓ} ⦃r : Real R⦄ where
  infixl 65 ◌⊕◌ ◌⊖◌
  infixl 70 ◌⊗◌ ◌⊘◌
  infix 50 ◌≺◌ ◌≼◌
  abbrev pub real : ℕ → R
  real = r.of_nat

  abbrev pub ◌⊕◌ : R → R → R
  ◌⊕◌ = r.add

  abbrev pub ◌⊖◌ : R → R → R
  ◌⊖◌ = r.sub

  abbrev pub ◌⊗◌ : R → R → R
  ◌⊗◌ = r.mul

  abbrev pub ◌⊘◌ : R → R → R
  ◌⊘◌ = r.div

  -- `a < b` and `a <= b`
  abbrev pub ◌≺◌ : R → R → Bool
  ◌≺◌ = r.lt

  abbrev pub ◌≼◌ : R → R → Bool
  ◌≼◌ = r.le

  -- `max(a, b)` and `min(a, b)` keep the first argument unless the second is strictly better.
  abbrev pub maximum : R → R → R
  maximum a b = if a ≺ b then b else a

  abbrev pub minimum : R → R → R
  minimum a b = if b ≺ a then b else a

  -- `abs(a)`
  abbrev pub magnitude : R → R
  magnitude a = if a ≺ real 0 then real 0 ⊖ a else a

-- The order of the doubles that are numbers.
pub record IsOrdered {ℓ} (R : Type ℓ) ⦃r : Real R⦄ : Type ℓ where
  pub le_refl : (a : R) → r.le a a ≡ true
  pub le_of_lt : (a b : R) → r.lt a b ≡ true → r.le a b ≡ true
  pub le_trans : (a b c : R) → r.le a b ≡ true → r.le b c ≡ true → r.le a c ≡ true

-- Exact amounts in whole units, with any division.
abbrev pub exact : (ℤ → ℤ → ℤ) → Real ℤ
exact quotient = record {
  of_nat = pos;
  add = ◌+ℤ◌;
  sub = ◌-ℤ◌;
  mul = ◌*ℤ◌;
  div = quotient;
  lt = ltb_ℤ;
  le = leb_ℤ;
}

pub exact-IsOrdered : (quotient : ℤ → ℤ → ℤ) → IsOrdered ℤ ⦃r = exact quotient⦄
exact-IsOrdered quotient = record {
  le_refl = λ a. ground arith;
  le_of_lt = λ a b h. ground arith;
  le_trans = λ a b c h k. ground arith;
}
