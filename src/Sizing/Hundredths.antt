-- ===== src/Sizing/Hundredths.antt =====
-- Amounts in hundredths, as whole numbers: a way to meet the laws that the bounds on sizes assume.
use native.Mathlib.Nat.{mul-le-mul_right, mul-le-mul_left, div-mul-le_self}
use delta_quant.Prelude.{suc, ◌*◌, ◌/◌, ◌≤◌, ◌≡◌, refl, true, arith}
use delta_quant.Prelude.Int.{ℤ, pos, negsuc, ◌+ℤ◌, ◌-ℤ◌, ltb_ℤ, leb_ℤ, int_laws}
use delta_quant.Prelude.Real.{Real, IsOrdered}
use delta_quant.Risk.{real_ℤ}
use delta_quant.Sizing.Caps.{IsExact}
use delta_quant.Sizing.Guards.{amounts}

abbrev pub times : ℤ → ℤ → ℤ
times (pos a) (pos b) = pos (a * b / 100)
times (pos a) (negsuc b) = pos 0 -ℤ pos (a * suc b / 100)
times (negsuc a) (pos b) = pos 0 -ℤ pos (suc a * b / 100)
times (negsuc a) (negsuc b) = pos (suc a * suc b / 100)

abbrev pub over : ℤ → ℤ → ℤ
over (pos a) (pos b) = pos (a * 100 / b)
over (pos a) (negsuc b) = pos 0 -ℤ pos (a * 100 / suc b)
over (negsuc a) (pos b) = pos 0 -ℤ pos (suc a * 100 / b)
over (negsuc a) (negsuc b) = pos (suc a * 100 / suc b)

abbrev pub whole_part : ℤ → ℤ
whole_part (pos n) = pos (n / 100)
whole_part (negsuc n) = pos 0 -ℤ pos (suc n / 100)

instance abbrev pub hundredths : Real ℤ
hundredths = record {
  of_nat = λ n. pos (n * 100);
  add = ◌+ℤ◌;
  sub = ◌-ℤ◌;
  mul = times;
  div = over;
  lt = ltb_ℤ;
  le = leb_ℤ;
}

hundredths-IsOrdered : IsOrdered ℤ
hundredths-IsOrdered = record {
  le_refl = λ a. ground arith;
  le_of_lt = λ a b h. ground arith;
  le_trans = λ a b c h k. ground arith;
}

real_mono : (m n : ℤ) → leb_ℤ m n ≡ true → hundredths.le (real_ℤ m) (real_ℤ n) ≡ true
real_mono (pos m) (pos n) h = ground arith
real_mono (pos m) (negsuc n) h = absurd (ground arith)
real_mono (negsuc m) (pos n) h = grind int_laws
real_mono (negsuc m) (negsuc n) h = grind int_laws

times_mono :
    (a b c : ℤ)
    → leb_ℤ (pos 0) a ≡ true
    → leb_ℤ a b ≡ true
    → leb_ℤ (pos 0) c ≡ true
    → leb_ℤ (times a c) (times b c) ≡ true
times_mono (pos a) (pos b) (pos c) ha h hc =
    let le : a ≤ b = ground arith in ground (arith, mul-le-mul_right c le)
times_mono (negsuc a) b c ha h hc = absurd (ground arith)
times_mono (pos a) (negsuc b) c ha h hc = absurd (ground arith)
times_mono (pos a) (pos b) (negsuc c) ha h hc = absurd (ground arith)

times_mono_right :
    (a b c : ℤ)
    → leb_ℤ (pos 0) a ≡ true
    → leb_ℤ a b ≡ true
    → leb_ℤ (pos 0) c ≡ true
    → leb_ℤ (times c a) (times c b) ≡ true
times_mono_right (pos a) (pos b) (pos c) ha h hc =
    let le : a ≤ b = ground arith in ground (arith, mul-le-mul_left c le)
times_mono_right (negsuc a) b c ha h hc = absurd (ground arith)
times_mono_right (pos a) (negsuc b) c ha h hc = absurd (ground arith)
times_mono_right (pos a) (pos b) (negsuc c) ha h hc = absurd (ground arith)

over-times :
    (a b : ℤ)
    → leb_ℤ (pos 0) a ≡ true
    → ltb_ℤ (pos 0) b ≡ true
    → leb_ℤ (times (over a b) b) a ≡ true
over-times (pos a) (pos b) ha hb = ground (arith, div-mul-le_self (a * 100) b)
over-times (negsuc a) b ha hb = absurd (ground arith)
over-times (pos a) (negsuc b) ha hb = absurd (ground arith)

times_nonneg :
    (a b : ℤ) → leb_ℤ (pos 0) a ≡ true → leb_ℤ (pos 0) b ≡ true → leb_ℤ (pos 0) (times a b) ≡ true
times_nonneg (pos a) (pos b) ha hb = ground arith
times_nonneg (negsuc a) b ha hb = absurd (ground arith)
times_nonneg (pos a) (negsuc b) ha hb = absurd (ground arith)

over_nonneg :
    (a b : ℤ) → leb_ℤ (pos 0) a ≡ true → ltb_ℤ (pos 0) b ≡ true → leb_ℤ (pos 0) (over a b) ≡ true
over_nonneg (pos a) (pos b) ha hb = ground arith
over_nonneg (negsuc a) b ha hb = absurd (ground arith)
over_nonneg (pos a) (negsuc b) ha hb = absurd (ground arith)

whole_part_nonneg : (a : ℤ) → leb_ℤ (pos 0) a ≡ true → leb_ℤ (pos 0) (whole_part a) ≡ true
whole_part_nonneg (pos a) h = ground arith
whole_part_nonneg (negsuc a) h = absurd (ground arith)

whole_part_le : (a : ℤ) → leb_ℤ (pos 0) a ≡ true → hundredths.le (real_ℤ (whole_part a)) a ≡ true
whole_part_le (pos a) h = ground (arith, div-mul-le_self a 100)
whole_part_le (negsuc a) h = absurd (ground arith)

pub hundredths-IsExact : IsExact ℤ whole_part
hundredths-IsExact = record {
  ordered = hundredths-IsOrdered;
  lt_of_not_le = λ a b h. ground arith;
  le_of_not_lt = λ a b h. ground arith;
  real_mono = real_mono;
  real_pos = λ n. ground arith;
  half_pos = refl;
  lt_of_lt_of_le = λ a b c h k. ground arith;
  whole_nonneg = whole_part_nonneg;
  whole_le = whole_part_le;
  mul_nonneg = times_nonneg;
  mul_mono = times_mono;
  mul_mono_right = times_mono_right;
  div_nonneg = over_nonneg;
  div_mul = over-times;
}
