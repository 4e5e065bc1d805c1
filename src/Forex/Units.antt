-- ===== src/Forex/Units.antt =====
-- src/markets/forex/risk/model.py: the size of a forex position in units of the broker. `math.floor` is
-- the parameter `floor`; what the code raises is an error.
use Prim.Native.Nat.{◌^◌}
use delta_quant.Prelude.{ℕ, Bool, not, ◌&&◌, Option, none, some, if◌then◌else◌, ◌==◌, Text}
use delta_quant.Prelude.Int.{ℤ}
use delta_quant.Prelude.Real.{Real, real, ◌⊕◌, ◌⊖◌, ◌⊗◌, ◌⊘◌, ◌≺◌, ◌≼◌, minimum, magnitude}
use delta_quant.Costs.{Side}
use delta_quant.Risk.{real_ℤ}
use delta_quant.Forex.Pretrade.{PricedQuote, executable_price, rounding_dust}

-- What the sizing reads of an `Instrument`. The precision is a number of decimals.
pub record Instrument (R : Type 0) : Type 0 where
  pub quote_currency : Text
  pub pip_size : R
  pub trade_units_precision : ℕ
  pub minimum_trade_size : R
  pub maximum_order_units : Option R

pub data SizeReason : Type 0 where
  below_minimum_trade_size sized : SizeReason

pub record ForexSizeResult (R : Type 0) : Type 0 where
  pub units : R
  pub risk_amount_home : R
  pub stop_distance_pips : R
  pub pip_value_per_unit_home : R
  pub entry_price : R
  pub reason : SizeReason

pub data SizeError : Type 0 where
  invalid_account no_stop_distance missing_conversion_rate : SizeError

pub data Sized {ℓ} (A : Type ℓ) : Type ℓ where
  ok : A → Sized A
  err : SizeError → Sized A

infixl 5 ◌>>=◌
abbrev pub ◌>>=◌ {ℓ κ} : {A : Type ℓ} {B : Type κ} → Sized A → (A → Sized B) → Sized B
ok a >>= f = f a
err e >>= f = err e

-- The keyword arguments of `size_forex_position`.
pub record SizeRequest (R : Type 0) : Type 0 where
  pub instrument : Instrument R
  pub quote : PricedQuote R
  pub side : Side
  pub stop_price : R
  pub account_equity : R
  pub risk_fraction : R
  pub account_home_currency : Text
  pub conversion_rates : Text → Text → Option R

module _ {R : Type 0} ⦃r : Real R⦄ where
  -- A rate that is there and positive.
  abbrev pub usable : Option R → Option R
  usable none = none
  usable (some rate) = if real 0 ≺ rate then some rate else none

  abbrev pub inverse_rate : Option R → Sized R
  inverse_rate none = err missing_conversion_rate
  inverse_rate (some rate) = ok (real 1 ⊘ rate)

  abbrev pub direct_or : Option R → Sized R → Sized R
  direct_or none other = other
  direct_or (some rate) other = ok rate

  unfoldable pub quote_to_home_rate : Text → Text → (Text → Text → Option R) → Sized R
  quote_to_home_rate quote home rates =
      if quote == home
      then ok (real 1)
      else direct_or (usable (rates quote home)) (inverse_rate (usable (rates home quote)))

  abbrev pub at_most : Option R → R → R
  at_most none units = units
  at_most (some most) units = minimum units most

  abbrev pub precision_factor : Instrument R → R
  precision_factor i = real (10 ^ i.trade_units_precision)

  -- The units whose loss at the stop is the risk.
  abbrev pub raw_units : R → R → R → R
  raw_units risk_amount stop_pips pip_value = risk_amount ⊘ (stop_pips ⊗ pip_value)

  abbrev pub valid_account : SizeRequest R → Bool
  valid_account q =
      not (q.account_equity ≼ real 0)
      && (real 0 ≺ q.risk_fraction)
      && (q.risk_fraction ≼ real 5 ⊘ real 100)

  module _ (floor : R → ℤ) where
    abbrev pub floored_units : Instrument R → R → R
    floored_units i raw =
        real_ℤ (floor (raw ⊗ precision_factor i ⊕ rounding_dust)) ⊘ precision_factor i

    -- What is answered once the conversion is known.
    unfoldable pub size_at : SizeRequest R → R → R → R → ForexSizeResult R
    size_at q entry stop_distance conversion =
        let i = q.instrument in
        let stop_pips = stop_distance ⊘ i.pip_size in
        let pip_value = i.pip_size ⊗ conversion in
        let risk_amount = q.account_equity ⊗ q.risk_fraction in
        let units =
          at_most i.maximum_order_units
            (floored_units i (raw_units risk_amount stop_pips pip_value)) in
        let too_small = units ≺ i.minimum_trade_size in
        record {
          units = if too_small then real 0 else units;
          risk_amount_home = risk_amount;
          stop_distance_pips = stop_pips;
          pip_value_per_unit_home = pip_value;
          entry_price = entry;
          reason = if too_small then below_minimum_trade_size else sized;
        }

    unfoldable pub size_forex_position : SizeRequest R → Sized (ForexSizeResult R)
    size_forex_position q =
        let entry = executable_price q.quote q.side in
        let stop_distance = magnitude (entry ⊖ q.stop_price) in
        if not (valid_account q)
        then err invalid_account
        else if stop_distance ≼ real 0
        then err no_stop_distance
        else do
          conversion ←
              quote_to_home_rate q.instrument.quote_currency q.account_home_currency
                q.conversion_rates
          ok (size_at q entry stop_distance conversion)
