-- ===== src/Prelude/Whole.antt =====
-- Exact amounts with the division that drops the fraction.
use Prim.Native.Nat.{ℕ, suc, ◌/◌, ◌<◌}
use mathlib.Core.Path.{◌≡◌, ap}
use native.Mathlib.Nat.{div_self}
use delta_quant.Prelude.Int.{ℤ, pos, negsuc, ◌-ℤ◌}
use delta_quant.Prelude.Real.{Real, exact}

abbrev pub truncated : ℤ → ℤ → ℤ
truncated (pos a) (pos b) = pos (a / b)
truncated (pos a) (negsuc b) = pos 0 -ℤ pos (a / suc b)
truncated (negsuc a) (pos b) = pos 0 -ℤ pos (suc a / b)
truncated (negsuc a) (negsuc b) = pos (suc a / suc b)

pub truncated_self : (n : ℕ) → 0 < n → truncated (pos n) (pos n) ≡ pos 1
truncated_self n h = ap pos (div_self h)

abbrev pub whole_units : Real ℤ
whole_units = exact truncated
