-- ===== src/Sizing/Samples.antt =====
-- A sizer for a capital of 1,000, and a session of equities.
use delta_quant.Prelude.{◌≡◌, refl, ◌⊎◌, true, none, some, List, [], ◌∷◌}
use delta_quant.Prelude.Int.{ℤ, pos, ◌-ℤ◌}
use delta_quant.Prelude.Whole.{truncated}
use delta_quant.Sizing.{
  PositionSizer, Evidence, kelly_criterion, calculate_optimal, kelly_size, calculate_portfolio_heat,
}
use delta_quant.Sizing.Caps.{ValueCapped, RiskCapped}
use delta_quant.Sizing.Methods.{calculate_optimal-capped}
use delta_quant.Sizing.Hundredths.{hundredths, whole_part, hundredths-IsExact}
use delta_quant.Sizing.Guards.{
  new_tracker, update_all, update_all-deepest, deepest, amounts, is_circuit_locked,
}

-- A capital of 1,000, of which 20% may be in one position, and 2% at risk in one trade.
abbrev sizer : PositionSizer ℤ
sizer = record {
  capital = pos 100_000;
  max_position_pct = pos 20;
  max_risk_per_trade = pos 2;
  max_total_risk = pos 10;
}

abbrev volatile : Evidence ℤ
volatile = record {
  target_price = none;
  atr = none;
  win_rate = none;
  current_volatility = some (pos 300);
  avg_volatility = some (pos 200);
}

calculate_optimal-capped_example :
    ValueCapped sizer (calculate_optimal whole_part sizer (pos 1_000) (pos 900) volatile)
    × (((calculate_optimal whole_part sizer (pos 1_000) (pos 900) volatile).method
          ≡ kelly_criterion)
        ⊎ RiskCapped sizer sizer.max_risk_per_trade
            (calculate_optimal whole_part sizer (pos 1_000) (pos 900) volatile))
calculate_optimal-capped_example =
    calculate_optimal-capped hundredths-IsExact sizer (pos 1_000) (pos 900) volatile refl refl refl
      refl

-- The stop is half of the price: Kelly's criterion proposes 20 shares, whose risk is 10% of the capital.
abbrev confident : Evidence ℤ
confident = record {
  target_price = some (pos 2_000);
  atr = none;
  win_rate = some (pos 90);
  current_volatility = none;
  avg_volatility = none;
}

confident_risk :
    (calculate_optimal whole_part sizer (pos 1_000) (pos 500) confident).risk_amount ≡ pos 10_000
unfolding calculate_optimal kelly_size ◌-ℤ◌
confident_risk = refl

no_heat : (calculate_portfolio_heat [] (pos 100_000)).total_risk ≡ pos 0
unfolding calculate_portfolio_heat
no_heat = refl

abbrev session : List ℤ
session = pos 100 ∷ pos 140 ∷ pos 90 ∷ pos 160 ∷ pos 120 ∷ []

update_all-deepest_example :
    (update_all ⦃r = amounts truncated⦄ session (new_tracker ⦃r = amounts truncated⦄)).max_drawdown
    ≡ deepest (pos 0 ∷ session) (pos 0)
update_all-deepest_example = update_all-deepest truncated session

session_fall : deepest (pos 0 ∷ session) (pos 0) ≡ pos 50
unfolding deepest ◌-ℤ◌
session_fall = refl

locked : is_circuit_locked (pos 1_100) (pos 1_000) ≡ true
unfolding is_circuit_locked
locked = refl
