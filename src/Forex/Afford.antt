-- ===== src/Forex/Afford.antt =====
-- src/markets/forex/risk/model.py: the units that are answered are within what the risk pays for.
use delta_quant.Prelude.{
  ◌≡◌, refl, sym, subst, ◌⊎◌, true, false, Bool-cases, Option, none, some, inl, inr,
}
use delta_quant.Prelude.Int.{ℤ, pos}
use delta_quant.Prelude.Real.{Real, real, ◌⊕◌, ◌⊖◌, ◌⊗◌, ◌⊘◌, ◌≺◌, ◌≼◌, magnitude}
use delta_quant.Risk.{real_ℤ}
use delta_quant.Sizing.Caps.{IsExact}
use delta_quant.Forex.Pretrade.{executable_price, rounding_dust}
use delta_quant.Forex.Units.{
  Instrument, SizeRequest, ForexSizeResult, below_minimum_trade_size, Sized, ok, err, ◌>>=◌,
  size_at, size_forex_position, quote_to_home_rate, valid_account, precision_factor, floored_units,
  raw_units, at_most,
}

module _ {R : Type 0} ⦃r : Real R⦄ where
  -- The units that a risk pays for at a stop, before rounding.
  abbrev pub paid_units : ForexSizeResult R → R
  paid_units f = raw_units f.risk_amount_home f.stop_distance_pips f.pip_value_per_unit_home

  abbrev pub WithinMaximum : Option R → R → Type 0
  WithinMaximum none units = Unit
  WithinMaximum (some most) units = (units ≼ most) ≡ true

  -- What an answer promises: nothing, or units that the broker takes and the risk pays for.
  abbrev pub IsAffordable : Instrument R → ForexSizeResult R → Type 0
  IsAffordable i f =
      ((f.reason ≡ below_minimum_trade_size) × (f.units ≡ real 0))
      ⊎ (((f.units ≺ i.minimum_trade_size) ≡ false)
          × WithinMaximum i.maximum_order_units f.units
          × ((f.units ⊗ precision_factor i ≼ paid_units f ⊗ precision_factor i ⊕ rounding_dust)
              ≡ true))

module _ {R : Type 0} ⦃r : Real R⦄ {floor : R → ℤ} (x : IsExact R floor) where
  at_most-le : (most : Option R) (units : R) → (at_most most units ≼ units) ≡ true
  at_most-le none units = x.ordered.le_refl units
  at_most-le (some most) units = elim (Bool-cases (most ≺ units)) [
    | inl e ↦ rw e (x.ordered.le_of_lt most units e)
    | inr e ↦ rw e (x.ordered.le_refl units)
  ]

  at_most-WithinMaximum : (most : Option R) (units : R) → WithinMaximum most (at_most most units)
  at_most-WithinMaximum none units = tt
  at_most-WithinMaximum (some most) units = elim (Bool-cases (most ≺ units)) [
    | inl e ↦ rw e (x.ordered.le_refl most)
    | inr e ↦ rw e (x.le_of_not_lt most units e)
  ]

  -- Rounding down to a multiple of the precision adds at most the dust.
  floored_units-le :
      (i : Instrument R) (raw : R)
      → (real 0 ≺ precision_factor i) ≡ true
      → (real 0 ≼ raw ⊗ precision_factor i ⊕ rounding_dust) ≡ true
      → (floored_units floor i raw ⊗ precision_factor i ≼ raw ⊗ precision_factor i ⊕ rounding_dust)
        ≡ true
  floored_units-le i raw factor nonneg =
      let total = raw ⊗ precision_factor i ⊕ rounding_dust in
      let start : r.le (real 0) (real_ℤ (floor total)) ≡ true =
        x.real_mono (pos 0) (floor total) (x.whole_nonneg total nonneg) in
      x.ordered.le_trans _ _ _ (x.div_mul (real_ℤ (floor total)) (precision_factor i) start factor)
        (x.whole_le total nonneg)

  size_at-IsAffordable :
      (q : SizeRequest R) (entry stop_distance conversion : R)
      → (real 0 ≺ precision_factor q.instrument) ≡ true
      → (real 0 ≼ q.instrument.minimum_trade_size) ≡ true
      → (real 0
          ≼ paid_units (size_at floor q entry stop_distance conversion)
              ⊗ precision_factor q.instrument
            ⊕ rounding_dust)
        ≡ true
      → IsAffordable q.instrument (size_at floor q entry stop_distance conversion)
  unfolding size_at
  size_at-IsAffordable q entry stop_distance conversion factor minimum_size nonneg =
      let i = q.instrument in
      let raw =
        raw_units (q.account_equity ⊗ q.risk_fraction) (stop_distance ⊘ i.pip_size)
          (i.pip_size ⊗ conversion) in
      let floored = floored_units floor i raw in
      let units = at_most i.maximum_order_units floored in
      elim (Bool-cases (units ≺ i.minimum_trade_size)) [
        | inl small ↦ rw small (inl (refl, refl))
        | inr large ↦
            let start = x.ordered.le_trans _ _ _ minimum_size (x.le_of_not_lt _ _ large) in
            rw large (
              inr (
                large,
                at_most-WithinMaximum i.maximum_order_units floored,
                x.ordered.le_trans _ _ _
                    (x.mul_mono units floored (precision_factor i) start
                      (at_most-le i.maximum_order_units floored) (x.ordered.le_of_lt _ _ factor))
                    (floored_units-le i raw factor nonneg),
              ))
      ]

  converted :
      (q : SizeRequest R) (f : ForexSizeResult R) (entry stop_distance : R) (conversion : Sized R)
      → (conversion >>= λ rate. ok (size_at floor q entry stop_distance rate)) ≡ ok f
      → (real 0 ≺ precision_factor q.instrument) ≡ true
      → (real 0 ≼ q.instrument.minimum_trade_size) ≡ true
      → (real 0 ≼ paid_units f ⊗ precision_factor q.instrument ⊕ rounding_dust) ≡ true
      → IsAffordable q.instrument f
  converted q f entry stop_distance (ok rate) answered factor minimum_size nonneg =
      let same : size_at floor q entry stop_distance rate ≡ f = cc in
      subst (IsAffordable q.instrument) same (
        size_at-IsAffordable q entry stop_distance rate factor minimum_size (
          subst
            (λ g. (real 0 ≼ paid_units g ⊗ precision_factor q.instrument ⊕ rounding_dust) ≡ true)
            (sym same) nonneg))
  converted q f entry stop_distance (err e) answered factor minimum_size nonneg = cc

  -- When amounts are computed without rounding, an answer for an account is no units, or units from the
  -- broker's minimum to its maximum whose loss at the stop the risk pays for: at the broker's precision they are within
  -- the quotient of the risk and the loss of one unit, but for the dust of 1e-9 that the code adds before it
  -- rounds down. The broker's precision is positive and its minimum and the quotient are not negative.
  pub size_forex_position-IsAffordable :
      (q : SizeRequest R) (f : ForexSizeResult R)
      → size_forex_position floor q ≡ ok f
      → (real 0 ≺ precision_factor q.instrument) ≡ true
      → (real 0 ≼ q.instrument.minimum_trade_size) ≡ true
      → (real 0 ≼ paid_units f ⊗ precision_factor q.instrument ⊕ rounding_dust) ≡ true
      → IsAffordable q.instrument f
  unfolding size_forex_position
  size_forex_position-IsAffordable q f answered factor minimum_size nonneg =
      let entry = executable_price q.quote q.side in
      let stop_distance = magnitude (entry ⊖ q.stop_price) in
      elim (Bool-cases (valid_account q)) [
        | inr invalid ↦ absurd (cc (rw invalid at answered))
        | inl valid ↦ elim (Bool-cases (stop_distance ≼ real 0)) [
          | inl flat ↦ absurd (cc (rw (valid, flat) at answered))
          | inr apart ↦
              converted q f entry stop_distance
                (quote_to_home_rate q.instrument.quote_currency q.account_home_currency
                  q.conversion_rates)
                (rw (valid, apart) at answered) factor minimum_size nonneg
        ]
      ]
