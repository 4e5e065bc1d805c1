-- ===== src/Sizing/Methods.antt =====
-- src/markets/nse/risk/sizing.py: the caps on whatever method `calculate_optimal` settles on.
use delta_quant.Prelude.{ℕ, ◌≡◌, true, ◌&&◌, Bool-cases, inl, inr, ◌⊎◌, if◌then◌else◌, arith, none}
use delta_quant.Prelude.Int.{ℤ, pos, ltb_ℤ}
use delta_quant.Prelude.Real.{Real, real, ◌⊗◌, ◌⊘◌, ◌≺◌, ◌≼◌, maximum}
use delta_quant.Paper.{or_real, equal}
use delta_quant.Sizing.{
  PositionSizer, PositionSizeResult, Evidence, kelly_criterion, fixed_fractional_at,
  fixed_fractional_size, kelly_size, half, volatility_size, adjusted_risk, by_volatility,
  kelly_applies, calculate_optimal, given, or_default,
}
use delta_quant.Sizing.Caps.{
  IsExact, minimum_bounds, ValueCapped, RiskCapped, fixed_fractional_at-capped, atr_size-capped,
  kelly_size-capped,
}

module _ {R : Type 0} ⦃r : Real R⦄ where
  abbrev IsCapped : PositionSizer R → PositionSizeResult R → Type 0
  IsCapped s result =
      ValueCapped s result
      × ((result.method ≡ kelly_criterion) ⊎ RiskCapped s s.max_risk_per_trade result)

module _ {R : Type 0} ⦃r : Real R⦄ {whole : R → ℤ} (x : IsExact R whole) where
  real_nonneg : (n : ℕ) → r.le (real 0) (real n) ≡ true
  real_nonneg n = x.real_mono (pos 0) (pos n) (ground arith)

  -- A smaller risk keeps a larger cap.
  RiskCapped-mono :
      (s : PositionSizer R) (small large : R) (result : PositionSizeResult R)
      → (real 0 ≼ s.capital) ≡ true
      → (real 0 ≼ small) ≡ true
      → (small ≼ large) ≡ true
      → RiskCapped s small result
      → RiskCapped s large result
  RiskCapped-mono s small large result capital nonneg smaller capped =
      x.ordered.le_trans _ _ _ capped
        (x.mul_mono_right small large s.capital nonneg smaller capital)

  maximum_right : (a b : R) → (b ≼ maximum a b) ≡ true
  maximum_right a b = elim (Bool-cases (a ≺ b)) [
    | inl e ↦ rw e (x.ordered.le_refl b)
    | inr e ↦ rw e (x.le_of_not_lt a b e)
  ]

  adjusted_risk_bounds :
      (s : PositionSizer R) (base_risk current_volatility avg_volatility : R)
      → (real 0 ≼ base_risk) ≡ true
      → (real 0 ≼ s.max_risk_per_trade) ≡ true
      → ((real 0 ≼ adjusted_risk s base_risk current_volatility avg_volatility) ≡ true)
        × ((adjusted_risk s base_risk current_volatility avg_volatility ≼ s.max_risk_per_trade)
            ≡ true)
  adjusted_risk_bounds s base_risk current_volatility avg_volatility base most =
      let average =
        if avg_volatility ≼ real 0 then or_real current_volatility (real 1) else avg_volatility in
      let ratio = current_volatility ⊘ average in
      let divisor = x.lt_of_lt_of_le _ _ _ x.half_pos (maximum_right ratio half) in
      let scaled = x.div_nonneg base_risk (maximum ratio half) base divisor in
      let ceiling =
        x.mul_nonneg base_risk (real 3 ⊘ real 2) base
          (x.div_nonneg (real 3) (real 2) (real_nonneg 3) (x.real_pos 1)) in
      let (within, _) = minimum_bounds x _ _ scaled ceiling in minimum_bounds x _ _ within most

  module _ (s : PositionSizer R) (entry_price stop_loss : R) (price : (real 0 ≺ entry_price) ≡ true)
      (capital : (real 0 ≼ s.capital) ≡ true) (pct : (real 0 ≼ s.max_position_pct) ≡ true)
      (most : (real 0 ≼ s.max_risk_per_trade) ≡ true) where
    value : (real 0 ≼ s.capital ⊗ s.max_position_pct) ≡ true
    value = x.mul_nonneg s.capital s.max_position_pct capital pct

    fixed_fractional_size-IsCapped :
        IsCapped s (fixed_fractional_size whole s entry_price stop_loss none)
    unfolding fixed_fractional_size
    fixed_fractional_size-IsCapped =
        let (v, k) =
          fixed_fractional_at-capped x s entry_price stop_loss s.max_risk_per_trade price value
            (x.mul_nonneg s.capital s.max_risk_per_trade capital most) in
        (v, inr k)

    -- The risk that the volatility leaves, or the largest if it leaves none.
    or_real-bounds :
        (a : R)
        → (real 0 ≼ a) ≡ true
        → (a ≼ s.max_risk_per_trade) ≡ true
        → ((real 0 ≼ or_real a s.max_risk_per_trade) ≡ true)
          × ((or_real a s.max_risk_per_trade ≼ s.max_risk_per_trade) ≡ true)
    or_real-bounds a low high = elim (Bool-cases (equal a (real 0))) [
      | inl e ↦ rw e (most, x.ordered.le_refl s.max_risk_per_trade)
      | inr e ↦ rw e (low, high)
    ]

    volatility_size-IsCapped :
        (current_volatility avg_volatility : R)
        → IsCapped s
            (volatility_size whole s entry_price stop_loss current_volatility avg_volatility none)
    unfolding volatility_size fixed_fractional_size
    volatility_size-IsCapped current_volatility avg_volatility =
        let adjusted = adjusted_risk s s.max_risk_per_trade current_volatility avg_volatility in
        let (low, high) =
          adjusted_risk_bounds s s.max_risk_per_trade current_volatility avg_volatility most most in
        let taken = or_real adjusted s.max_risk_per_trade in
        let (taken_low, taken_high) = or_real-bounds adjusted low high in
        let (v, k) =
          fixed_fractional_at-capped x s entry_price stop_loss taken price value
            (x.mul_nonneg s.capital taken capital taken_low) in
        (
          v,
          inr (
              RiskCapped-mono s taken s.max_risk_per_trade
                (fixed_fractional_at whole s entry_price stop_loss taken) capital taken_low
                taken_high k),
        )

    by_volatility-IsCapped :
        (e : Evidence R) → IsCapped s (by_volatility whole s entry_price stop_loss e)
    unfolding by_volatility
    by_volatility-IsCapped e =
        elim (Bool-cases (given e.current_volatility && given e.avg_volatility)) [
          | inl a ↦ rw a (volatility_size-IsCapped _ _)
          | inr a ↦ elim (Bool-cases (real 0 ≺ or_default e.atr (real 0))) [
            | inl b ↦
                let (v, k) =
                  atr_size-capped x s entry_price (or_default e.atr (real 0)) (real 2) none price
                    value (x.mul_nonneg s.capital s.max_risk_per_trade capital most) in
                rw (a, b) (v, inr k)
            | inr b ↦ rw (a, b) fixed_fractional_size-IsCapped
          ]
        ]

  kelly_size-method :
      (s : PositionSizer R) (entry_price stop_loss target_price win_rate fraction : R)
      → (kelly_size whole s entry_price stop_loss target_price win_rate fraction).method
        ≡ kelly_criterion
  unfolding kelly_size
  kelly_size-method s entry_price stop_loss target_price win_rate fraction = ground arith

  -- When amounts are computed without rounding, the entry price is positive and the capital and the
  -- percentages are not negative, the value of the position that is proposed is within the largest share of
  -- the capital, whatever evidence there is; and its risk is within the largest risk of one trade, unless
  -- the method is Kelly's criterion.
  pub calculate_optimal-capped :
      (s : PositionSizer R) (entry_price stop_loss : R) (e : Evidence R)
      → (real 0 ≺ entry_price) ≡ true
      → (real 0 ≼ s.capital) ≡ true
      → (real 0 ≼ s.max_position_pct) ≡ true
      → (real 0 ≼ s.max_risk_per_trade) ≡ true
      → ValueCapped s (calculate_optimal whole s entry_price stop_loss e)
        × (((calculate_optimal whole s entry_price stop_loss e).method ≡ kelly_criterion)
            ⊎ RiskCapped s s.max_risk_per_trade (calculate_optimal whole s entry_price stop_loss e))
  unfolding calculate_optimal
  calculate_optimal-capped s entry_price stop_loss e price capital pct most =
      let target = or_default e.target_price (real 0) in
      let rate = or_default e.win_rate (real 0) in
      let kelly = kelly_size whole s entry_price stop_loss target rate half in
      elim (Bool-cases (kelly_applies e && ltb_ℤ (pos 0) kelly.shares)) [
        | inl a ↦ rw a (
          kelly_size-capped x s entry_price stop_loss target rate half price capital pct
              (x.ordered.le_of_lt _ _ x.half_pos),
          inl (kelly_size-method s entry_price stop_loss target rate half),
        )
        | inr a ↦ rw a (by_volatility-IsCapped s entry_price stop_loss price capital pct most e)
      ]
