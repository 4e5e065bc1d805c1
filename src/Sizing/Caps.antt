-- ===== src/Sizing/Caps.antt =====
-- src/markets/nse/risk/sizing.py: what bounds the value and the risk of a position that one method sizes.
use delta_quant.Prelude.{ℕ, suc, ◌≡◌, refl, true, false, Bool-cases, inl, inr, ◌⊎◌, arith, Option}
use delta_quant.Prelude.Int.{ℤ, pos, leb_ℤ}
use delta_quant.Prelude.Real.{Real, IsOrdered, real, ◌⊖◌, ◌⊗◌, ◌⊘◌, ◌≺◌, ◌≼◌, minimum, magnitude}
use delta_quant.Risk.{real_ℤ}
use delta_quant.Sizing.{
  PositionSizer, PositionSizeResult, min_ℤ, max_ℤ, capped_shares, fixed_fractional_at, kelly_size,
  kelly_fraction, atr_size, or_default, half,
}

-- Arithmetic without rounding on amounts that are not negative, and `int`, which drops the fraction.
pub record IsExact (R : Type 0) ⦃r : Real R⦄ (whole : R → ℤ) : Type 0 where
  pub ordered : IsOrdered R
  pub lt_of_not_le : (a b : R) → (a ≼ b) ≡ false → (b ≺ a) ≡ true
  pub le_of_not_lt : (a b : R) → (a ≺ b) ≡ false → (b ≼ a) ≡ true
  pub real_mono : (m n : ℤ) → leb_ℤ m n ≡ true → r.le (real_ℤ m) (real_ℤ n) ≡ true
  pub real_pos : (n : ℕ) → r.lt (real 0) (real (suc n)) ≡ true
  pub half_pos : r.lt (real 0) half ≡ true
  pub lt_of_lt_of_le : (a b c : R) → (a ≺ b) ≡ true → (b ≼ c) ≡ true → (a ≺ c) ≡ true
  pub whole_nonneg : (a : R) → (real 0 ≼ a) ≡ true → leb_ℤ (pos 0) (whole a) ≡ true
  pub whole_le : (a : R) → (real 0 ≼ a) ≡ true → (real_ℤ (whole a) ≼ a) ≡ true
  pub mul_nonneg : (a b : R) → (real 0 ≼ a) ≡ true → (real 0 ≼ b) ≡ true → (real 0 ≼ a ⊗ b) ≡ true
  pub mul_mono :
      (a b c : R)
      → (real 0 ≼ a) ≡ true
      → (a ≼ b) ≡ true
      → (real 0 ≼ c) ≡ true
      → (a ⊗ c ≼ b ⊗ c) ≡ true
  pub mul_mono_right :
      (a b c : R)
      → (real 0 ≼ a) ≡ true
      → (a ≼ b) ≡ true
      → (real 0 ≼ c) ≡ true
      → (c ⊗ a ≼ c ⊗ b) ≡ true
  pub div_nonneg : (a b : R) → (real 0 ≼ a) ≡ true → (real 0 ≺ b) ≡ true → (real 0 ≼ a ⊘ b) ≡ true
  pub div_mul : (a b : R) → (real 0 ≼ a) ≡ true → (real 0 ≺ b) ≡ true → (a ⊘ b ⊗ b ≼ a) ≡ true

module _ {R : Type 0} ⦃r : Real R⦄ where
  abbrev pub ValueCapped : PositionSizer R → PositionSizeResult R → Type 0
  ValueCapped s result = (result.position_value ≼ s.capital ⊗ s.max_position_pct) ≡ true

  abbrev pub RiskCapped : PositionSizer R → R → PositionSizeResult R → Type 0
  RiskCapped s risk_percent result = (result.risk_amount ≼ s.capital ⊗ risk_percent) ≡ true

leb_ℤ_refl : (n : ℤ) → leb_ℤ n n ≡ true
leb_ℤ_refl n = ground arith

min_bounds :
    (a b n : ℤ)
    → leb_ℤ (pos 0) a ≡ true
    → leb_ℤ (pos 0) b ≡ true
    → (n ≡ min_ℤ a b) ⊎ (n ≡ max_ℤ (pos 0) (min_ℤ a b))
    → (leb_ℤ (pos 0) n ≡ true) × (leb_ℤ n a ≡ true) × (leb_ℤ n b ≡ true)
min_bounds a b n ha hb (inl e) = ground arith
min_bounds a b n ha hb (inr e) = ground arith

module _ {R : Type 0} ⦃r : Real R⦄ {whole : R → ℤ} (x : IsExact R whole) where
  pub minimum_bounds :
      (a b : R)
      → (real 0 ≼ a) ≡ true
      → (real 0 ≼ b) ≡ true
      → ((real 0 ≼ minimum a b) ≡ true) × ((minimum a b ≼ b) ≡ true)
  minimum_bounds a b ha hb = elim (Bool-cases (b ≺ a)) [
    | inl e ↦ rw e (hb, x.ordered.le_refl b)
    | inr e ↦ rw e (ha, x.le_of_not_lt b a e)
  ]

  -- As many whole units as an amount pays for cost no more than the amount; nor do fewer.
  units_cost :
      (n : ℤ) (amount unit : R)
      → leb_ℤ (pos 0) n ≡ true
      → leb_ℤ n (whole (amount ⊘ unit)) ≡ true
      → (real 0 ≼ amount) ≡ true
      → (real 0 ≺ unit) ≡ true
      → (real_ℤ n ⊗ unit ≼ amount) ≡ true
  units_cost n amount unit nonneg within funded positive =
      let trans = x.ordered.le_trans in
      let ratio = x.div_nonneg amount unit funded positive in
      let below : (real_ℤ n ≼ amount ⊘ unit) ≡ true =
        trans _ _ _ (x.real_mono n (whole (amount ⊘ unit)) within)
          (x.whole_le (amount ⊘ unit) ratio) in
      let unit_nonneg = x.ordered.le_of_lt _ _ positive in
      let start : r.le (real 0) (real_ℤ n) ≡ true = x.real_mono (pos 0) n nonneg in
      trans _ _ _ (x.mul_mono (real_ℤ n) (amount ⊘ unit) unit start below unit_nonneg)
        (x.div_mul amount unit funded positive)

  -- The shares that both caps allow, from zero up.
  capped_shares-capped :
      (s : PositionSizer R) (entry_price per_share risk_percent : R)
      → (real 0 ≺ entry_price) ≡ true
      → (real 0 ≺ per_share) ≡ true
      → (real 0 ≼ s.capital ⊗ s.max_position_pct) ≡ true
      → (real 0 ≼ s.capital ⊗ risk_percent) ≡ true
      → (n : ℤ)
      → (n ≡ capped_shares whole s entry_price per_share risk_percent)
        ⊎ (n ≡ max_ℤ (pos 0) (capped_shares whole s entry_price per_share risk_percent))
      → ((real_ℤ n ⊗ entry_price ≼ s.capital ⊗ s.max_position_pct) ≡ true)
        × ((real_ℤ n ⊗ per_share ≼ s.capital ⊗ risk_percent) ≡ true)
  capped_shares-capped s entry_price per_share risk_percent price unit value risk n e =
      let by_risk = whole (s.capital ⊗ risk_percent ⊘ per_share) in
      let by_size = whole (s.capital ⊗ s.max_position_pct ⊘ entry_price) in
      let risk_nonneg = x.whole_nonneg _ (x.div_nonneg _ per_share risk unit) in
      let size_nonneg = x.whole_nonneg _ (x.div_nonneg _ entry_price value price) in
      let (nonneg, in_risk, in_size) = min_bounds by_risk by_size n risk_nonneg size_nonneg e in
      (
        units_cost n (s.capital ⊗ s.max_position_pct) entry_price nonneg in_size value price,
        units_cost n (s.capital ⊗ risk_percent) per_share nonneg in_risk risk unit,
      )

  pub fixed_fractional_at-capped :
      (s : PositionSizer R) (entry_price stop_loss risk_percent : R)
      → (real 0 ≺ entry_price) ≡ true
      → (real 0 ≼ s.capital ⊗ s.max_position_pct) ≡ true
      → (real 0 ≼ s.capital ⊗ risk_percent) ≡ true
      → ValueCapped s (fixed_fractional_at whole s entry_price stop_loss risk_percent)
        × RiskCapped s risk_percent (fixed_fractional_at whole s entry_price stop_loss risk_percent)
  unfolding fixed_fractional_at
  fixed_fractional_at-capped s entry_price stop_loss risk_percent price value risk =
      let per_share = magnitude (entry_price ⊖ stop_loss) in
      elim (Bool-cases (per_share ≼ real 0)) [
        | inl nothing ↦ rw nothing (value, risk)
        | inr some_ ↦ rw some_ (
            capped_shares-capped s entry_price per_share risk_percent price
              (x.lt_of_not_le per_share (real 0) some_) value risk
              (max_ℤ (pos 0) (capped_shares whole s entry_price per_share risk_percent)) (inr refl))
      ]

  pub atr_size-capped :
      (s : PositionSizer R) (entry_price atr atr_multiplier : R) (risk_percent : Option R)
      → (real 0 ≺ entry_price) ≡ true
      → (real 0 ≼ s.capital ⊗ s.max_position_pct) ≡ true
      → (real 0 ≼ s.capital ⊗ or_default risk_percent s.max_risk_per_trade) ≡ true
      → ValueCapped s (atr_size whole s entry_price atr atr_multiplier risk_percent)
        × RiskCapped s
            (or_default risk_percent s.max_risk_per_trade)
            (atr_size whole s entry_price atr atr_multiplier risk_percent)
  unfolding atr_size
  atr_size-capped s entry_price atr atr_multiplier risk_percent price value risk =
      let distance = atr ⊗ atr_multiplier in
      let fraction = or_default risk_percent s.max_risk_per_trade in
      elim (Bool-cases (distance ≼ real 0)) [
        | inl nothing ↦ rw nothing (value, risk)
        | inr some_ ↦ rw some_ (
            capped_shares-capped s entry_price distance fraction price
              (x.lt_of_not_le distance (real 0) some_) value risk
              (capped_shares whole s entry_price distance fraction) (inl refl))
      ]

  -- Kelly's share of the capital is within that of one position.
  kelly_units :
      (s : PositionSizer R) (entry_price share : R)
      → (real 0 ≺ entry_price) ≡ true
      → (real 0 ≼ s.capital) ≡ true
      → (real 0 ≼ s.max_position_pct) ≡ true
      → (real 0 ≼ share) ≡ true
      → (real_ℤ (whole (s.capital ⊗ minimum share s.max_position_pct ⊘ entry_price)) ⊗ entry_price
          ≼ s.capital ⊗ s.max_position_pct)
        ≡ true
  kelly_units s entry_price share price capital pct nonneg =
      let taken = minimum share s.max_position_pct in
      let (low, high) = minimum_bounds share s.max_position_pct nonneg pct in
      let amount = x.mul_nonneg s.capital taken capital low in
      let n = whole (s.capital ⊗ taken ⊘ entry_price) in
      let start = x.whole_nonneg _ (x.div_nonneg _ entry_price amount price) in
      x.ordered.le_trans _ _ _
        (units_cost n (s.capital ⊗ taken) entry_price start (leb_ℤ_refl n) amount price)
        (x.mul_mono_right taken s.max_position_pct s.capital low high capital)

  pub kelly_size-capped :
      (s : PositionSizer R) (entry_price stop_loss target_price win_rate fraction : R)
      → (real 0 ≺ entry_price) ≡ true
      → (real 0 ≼ s.capital) ≡ true
      → (real 0 ≼ s.max_position_pct) ≡ true
      → (real 0 ≼ fraction) ≡ true
      → ValueCapped s (kelly_size whole s entry_price stop_loss target_price win_rate fraction)
  unfolding kelly_size
  kelly_size-capped s entry_price stop_loss target_price win_rate fraction price capital pct half_ =
      let win_amount = magnitude (target_price ⊖ entry_price) in
      let loss_amount = magnitude (entry_price ⊖ stop_loss) in
      let kelly = kelly_fraction win_amount loss_amount win_rate in
      let none_at_all = x.mul_nonneg s.capital s.max_position_pct capital pct in
      elim (Bool-cases (loss_amount ≼ real 0)) [
        | inl a ↦ rw a none_at_all
        | inr a ↦ elim (Bool-cases (win_amount ≼ real 0)) [
          | inl b ↦ rw (a, b) none_at_all
          | inr b ↦ elim (Bool-cases (kelly ≼ real 0)) [
            | inl c ↦ rw (a, b, c) none_at_all
            | inr c ↦
                rw (a, b, c)
                  (kelly_units s entry_price (kelly ⊗ fraction) price capital pct (
                    x.mul_nonneg kelly fraction
                      (x.ordered.le_of_lt _ _ (x.lt_of_not_le kelly (real 0) c)) half_))
          ]
        ]
      ]
