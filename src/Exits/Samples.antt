-- ===== src/Exits/Samples.antt =====
-- A long position through the exit manager, in whole units.
use delta_quant.Prelude.{◌≡◌, refl, true, false, none, some, [], ◌∷◌}
use delta_quant.Prelude.Dict.{lookup}
use delta_quant.Prelude.Int.{ℤ, pos, ◌+ℤ◌, ◌-ℤ◌, ◌*ℤ◌}
use delta_quant.Prelude.Real.{Real, exact-IsOrdered}
use delta_quant.Prelude.Whole.{truncated, whole_units}
use delta_quant.Costs.{buy}
use delta_quant.Exits.{
  ManagedPosition, ExitSettings, Registration, Tracked, get_position, register_position,
  unregister_position, apply_exit_fill, apply_add_fill, update_price,
}
use delta_quant.Exits.Rules.{update_trailing, check_breakeven, Moment, stop_loss, trending_up}
use delta_quant.Exits.Cycle.{check_position, manage_stop, check_exits}
use delta_quant.Exits.Ratchet.{cycles, cycles-Tracks, Tracks}
use delta_quant.Exits.Cascade.{due, check_position-due}

instance abbrev whole : Real ℤ
whole = whole_units

abbrev registration : Registration ℤ
registration = record {
  position_id = 5;
  symbol = 7;
  side = buy;
  quantity = 10;
  entry_price = pos 100;
  stop_loss = pos 90;
  target_price = pos 130;
  strategy = 0;
  regime = trending_up;
  entry_time = 0;
  timeframe = 2;
}

abbrev holding : ManagedPosition ℤ
holding = record {
  position_id = 5;
  symbol = 7;
  side = buy;
  quantity = 10;
  entry_price = pos 100;
  entry_time = 0;
  stop_loss = pos 90;
  target_price = pos 130;
  strategy = 0;
  timeframe = 2;
  regime_at_entry = trending_up;
  current_stop = pos 90;
  highest_price = pos 100;
  lowest_price = pos 100;
  breakeven_moved = false;
  partial_taken = false;
  mae = pos 0;
  mfe = pos 0;
}

abbrev settings : ExitSettings ℤ
settings = record {
  trailing_atr_multiplier = pos 2;
  breakeven_r_threshold = pos 1;
  max_hold_minutes = pos 120;
  partial_profit_r = pos 2;
  partial_exit_pct = pos 1;
  stale_trade_minutes = pos 60;
  stale_trade_min_pnl_pct = pos 1;
  intraday_square_off_enabled = true;
  intraday_square_off_time = 915;
  intraday_timeframes = 2 ∷ [];
}

abbrev morning : Moment
morning = record { now = 600; time_of_day = 600; regime = trending_up }

abbrev tracked : Tracked ℤ
tracked = (5, holding) ∷ []

registered : register_position registration [] ≡ tracked
unfolding register_position
registered = refl

filled_in_parts :
    (apply_exit_fill 5 4 tracked).1 ≡ some (record holding { quantity = 6; partial_taken = true })
    × ((apply_exit_fill 5 10 tracked).0 ≡ [])
unfolding apply_exit_fill
filled_in_parts = (refl, refl)

added :
    (apply_add_fill 5 10 (pos 90) tracked).1
    ≡ some (record holding { quantity = 20; entry_price = pos 95 })
unfolding apply_add_fill ◌+ℤ◌ ◌*ℤ◌
added = refl

unregistered : (get_position 5 (unregister_position 5 tracked)) ≡ none
unfolding get_position unregister_position
unregistered = refl

-- A rise to 115 moves the stop to 109 by way of the average range of 3.
risen :
    lookup 5 (check_exits settings morning ((7, pos 115) ∷ []) ((7, pos 3) ∷ []) tracked).0
    ≡ some (record holding {
      current_stop = pos 109;
      highest_price = pos 115;
      breakeven_moved = true;
      mfe = pos 150;
    })
unfolding check_exits check_position update_price manage_stop update_trailing check_breakeven ◌+ℤ◌
    ◌-ℤ◌ ◌*ℤ◌
risen = refl

cycles-Tracks_example : Tracks 5 holding (
    cycles settings
      ((morning, (7, pos 115) ∷ [], (7, pos 3) ∷ []) ∷ (morning, (7, pos 104) ∷ [], []) ∷ [])
      tracked)
cycles-Tracks_example =
    cycles-Tracks (exact-IsOrdered truncated) settings
      ((morning, (7, pos 115) ∷ [], (7, pos 3) ∷ []) ∷ (morning, (7, pos 104) ∷ [], []) ∷ [])
      tracked 5 holding refl

check_position-due_example :
    (check_position settings morning (pos 131) (pos 3) holding).1
    ≡ due settings morning (pos 131) (pos 3) (update_price (pos 131) holding)
check_position-due_example = check_position-due settings morning (pos 131) (pos 3) holding
