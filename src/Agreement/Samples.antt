-- ===== src/Agreement/Samples.antt =====
-- Four shares out of ten, given to both, in whole units.
use delta_quant.Prelude.{◌≡◌, ◌⊎◌, refl, Bool, true, false, none, [], ◌∷◌, arith}
use delta_quant.Prelude.Int.{ℤ, pos}
use delta_quant.Prelude.Real.{Real}
use delta_quant.Prelude.Whole.{whole_units}
use delta_quant.Costs.{buy}
use delta_quant.Exits.{ManagedPosition, Tracked, apply_exit_fill}
use delta_quant.Lifecycle.{opened, Trade, Store, ok, ExitFill}
use delta_quant.Lifecycle.Operations.{record_exit}
use delta_quant.Agreement.{IsHeld, IsGone, exit_agrees}

instance abbrev whole : Real ℤ
whole = whole_units

abbrev trade : Trade ℤ
trade = record {
  trade_id = 5;
  namespace = 1;
  run_id = 2;
  workflow_id = 3;
  idempotency_key = 77;
  signal_id = 4;
  symbol = 7;
  side = buy;
  strategy = 8;
  timeframe = 9;
  regime = 1;
  status = opened;
  entry_order_id = 40;
  position_id = 5;
  original_quantity = 10;
  remaining_quantity = 10;
  add_count = 0;
  entry_price = pos 100;
  weighted_entry_price = pos 100;
  current_price = pos 100;
  stop_loss = pos 90;
  target_price = pos 130;
  entry_charges = pos 0;
  exit_charges = pos 0;
  cumulative_pnl = pos 0;
  mae = pos 0;
  mfe = pos 0;
  created_at = 1;
  updated_at = 2;
  closed_at = none;
  finalized_at = none;
}

abbrev position : ManagedPosition ℤ
position = record {
  position_id = 5;
  symbol = 7;
  side = buy;
  quantity = 10;
  entry_price = pos 100;
  entry_time = 0;
  stop_loss = pos 90;
  target_price = pos 130;
  strategy = 8;
  timeframe = 9;
  regime_at_entry = 1;
  current_stop = pos 90;
  highest_price = pos 100;
  lowest_price = pos 100;
  breakeven_moved = false;
  partial_taken = false;
  mae = pos 0;
  mfe = pos 0;
}

abbrev tracked : Tracked ℤ
tracked = (5, position) ∷ []

abbrev store : Store ℤ
store = record { trades = (5, trade) ∷ []; events = [] }

abbrev four : ExitFill ℤ
four = record {
  order_id = 41;
  quantity = 4;
  exit_price = pos 110;
  realized_pnl = pos 40;
  exit_charges = pos 0;
  reason = 6;
  mae = pos 0;
  mfe = pos 0;
}

store-IsHeld : IsHeld 5 tracked store
store-IsHeld = (position, trade, refl, refl, refl, refl)

exit_agrees_example :
    let ps' = (apply_exit_fill 5 4 tracked).0 in
    (s' : Store ℤ) × (b : Bool) × (record_exit 3 5 four store ≡ ok (s', b))
    × (((b ≡ true) × IsGone 5 ps' s') ⊎ ((b ≡ false) × IsHeld 5 ps' s'))
exit_agrees_example = exit_agrees 3 5 four tracked store (refl, tt) store-IsHeld (omega arith)
