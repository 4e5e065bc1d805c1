-- ===== src/Forex/SizeSamples.antt =====
-- An account of 1,000 that risks 20 on a stop ten hundredths away, in hundredths.
use delta_quant.Prelude.{◌≡◌, refl, true, none, some}
use delta_quant.Prelude.Int.{ℤ, pos, ◌+ℤ◌, ◌-ℤ◌}
use delta_quant.Costs.{buy}
use delta_quant.Sizing.Hundredths.{hundredths, whole_part, hundredths-IsExact}
use delta_quant.Forex.Units.{
  Instrument, SizeRequest, ForexSizeResult, ok, err, missing_conversion_rate, sized, size_at,
  size_forex_position, quote_to_home_rate,
}
use delta_quant.Forex.Afford.{IsAffordable, size_forex_position-IsAffordable}

abbrev pair : Instrument ℤ
pair = record {
  quote_currency = 1;
  pip_size = pos 1;
  trade_units_precision = 0;
  minimum_trade_size = pos 100;
  maximum_order_units = some (pos 1_000_000);
}

abbrev request : SizeRequest ℤ
request = record {
  instrument = pair;
  quote = record { bid = pos 149; ask = pos 150; tradeable = true; age_seconds = pos 0 };
  side = buy;
  stop_price = pos 140;
  account_equity = pos 100_000;
  risk_fraction = pos 2;
  account_home_currency = 2;
  conversion_rates = λ a b. some (pos 100);
}

abbrev answer : ForexSizeResult ℤ
answer = record {
  units = pos 20_000;
  risk_amount_home = pos 2_000;
  stop_distance_pips = pos 1_000;
  pip_value_per_unit_home = pos 1;
  entry_price = pos 150;
  reason = sized;
}

request_sized : size_forex_position whole_part request ≡ ok answer
unfolding size_forex_position size_at quote_to_home_rate ◌+ℤ◌ ◌-ℤ◌
request_sized = refl

size_forex_position-IsAffordable_example : IsAffordable pair answer
unfolding ◌+ℤ◌
size_forex_position-IsAffordable_example =
    size_forex_position-IsAffordable hundredths-IsExact request answer request_sized refl refl refl

no_rate : quote_to_home_rate ⦃r = hundredths⦄ 1 2 (λ a b. none) ≡ err missing_conversion_rate
unfolding quote_to_home_rate
no_rate = refl
