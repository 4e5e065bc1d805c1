-- ===== src/Paper/Samples.antt =====
-- Orders at work on a small engine in whole units.
use delta_quant.Prelude.{List, ◌≡◌, ◌≢◌, refl, true, none, [], ◌∷◌, arith, inl, length}
use delta_quant.Prelude.Int.{ℤ, pos, ◌+ℤ◌, ◌-ℤ◌, ◌*ℤ◌}
use delta_quant.Prelude.Real.{Real}
use delta_quant.Prelude.Whole.{truncated, truncated_self, whole_units}
use delta_quant.Costs.{buy, sell, zero_cost, fill_price, charges}
use delta_quant.Paper.{
  genuine, market_paper, market, filled, duplicate, Position, Order, Engine, update_pnl,
}
use delta_quant.Paper.Close.{next_match, close_loop, close_leg, find, take_shares}
use delta_quant.Paper.Screen.{Request, Context, screen, available, prior_order}
use delta_quant.Paper.Place.{
  placed, value_error, place_order, closing, closes, named_position, order_price, resolved_id,
  start, execute, finish, open_leg, open_position, open_at, new_position, leg_cost,
}
use delta_quant.Paper.Accounts.{committed, IsBalanced}
use delta_quant.Paper.Book.{IsKeyed}
use delta_quant.Paper.Loop.{close_loop_done}
use delta_quant.Paper.NetWorth.{AveragesExactly, place_order-IsBalanced}
use delta_quant.Paper.Soundness.{IsSound, place_order-IsSound}
use delta_quant.Paper.Delivery.{Delivers, place_order-Delivers}
use delta_quant.Paper.Replay.{place_order_once, Turn, ordering, marking, take_turns}
use delta_quant.Paper.Errors.{place_order_error_loses}
use delta_quant.Paper.Portfolio.{get_win_rate, get_orders_for_trade, reset}

instance abbrev whole : Real ℤ
whole = whole_units

-- Ten shares of symbol 7, bought at 10.
abbrev lot : Position ℤ
lot = record {
  position_id = 5;
  symbol = 7;
  side = buy;
  quantity = 10;
  entry_price = pos 10;
  entry_time = 0;
  current_price = pos 10;
  unrealized_pnl = pos 0;
  unrealized_pnl_pct = pos 0;
  entry_charges = pos 0;
  mae = pos 0;
  mfe = pos 0;
  highest_price = pos 10;
  lowest_price = pos 10;
  stop_loss = pos 8;
  target_price = pos 20;
  strategy = 0;
  entry_data_source = genuine;
}

abbrev engine : Engine ℤ
engine = record {
  mode = market_paper;
  long_only = true;
  cost_model = zero_cost;
  initial_balance = pos 1000;
  wallet = record {
    balance = pos 900;
    positions = (5, lot) ∷ [];
    realized_pnl = pos 0;
    total_trades = 0;
    winning_trades = 0;
    losing_trades = 0;
  };
  orders = [];
  durable = record { saved = none; rows = [] };
}

-- Four more shares, as a position of their own.
abbrev purchase : Request ℤ
purchase = record {
  symbol = 7;
  side = buy;
  quantity = pos 4;
  current_price = pos 12;
  order_type = market;
  reason = 9;
  trade_id = 6;
  position_id = 0;
  idempotency_key = 77;
  stop_loss = pos 9;
  target_price = pos 15;
  strategy = 0;
  entry_data_source = genuine;
}

abbrev sale : Request ℤ
sale = record purchase { side = sell; quantity = pos 6; trade_id = 5 }

-- An order for another symbol under the id of the lot.
abbrev clash : Request ℤ
clash = record purchase { symbol = 8; trade_id = 5 }

abbrev context : Context
context = record { order_id = 40; timestamp = 3; fresh_position_id = 41; commits = true }

engine-IsKeyed : IsKeyed engine.wallet.positions
engine-IsKeyed = ground arith

engine-IsBalanced : IsBalanced engine.initial_balance engine.wallet
unfolding ◌+ℤ◌ ◌*ℤ◌
engine-IsBalanced = refl

engine-IsSound : IsSound true engine.wallet
engine-IsSound = ground arith

bought :
    ((place_order engine purchase context).0.wallet.balance ≡ pos 852)
    × (length (place_order engine purchase context).0.wallet.positions ≡ 2)
unfolding place_order execute screen closing close_loop next_match find open_leg open_position
    open_at new_position finish fill_price charges prior_order ◌+ℤ◌ ◌-ℤ◌ ◌*ℤ◌
bought = (refl, refl)

sold :
    ((place_order engine sale context).0.wallet.balance ≡ pos 972)
    × ((place_order engine sale context).0.wallet.realized_pnl ≡ pos 12)
unfolding place_order execute screen closing close_loop close_leg next_match find take_shares
    open_leg finish fill_price charges prior_order available ◌+ℤ◌ ◌-ℤ◌ ◌*ℤ◌
sold = (refl, refl)

marked : (update_pnl (pos 13) lot).unrealized_pnl ≡ pos 30
unfolding update_pnl ◌-ℤ◌ ◌*ℤ◌
marked = refl

purchase_averages :
    AveragesExactly truncated
      (closing engine purchase).wallet.positions
      (resolved_id context (named_position purchase))
      (order_price engine purchase)
      (closing engine purchase).remaining
unfolding closing close_loop next_match find
purchase_averages old found = absurd (ground arith)

purchase_fine : (place_order engine purchase context).1 ≢ value_error
unfolding place_order execute screen closing close_loop next_match find open_leg open_position
    open_at new_position finish fill_price charges prior_order ◌+ℤ◌ ◌-ℤ◌ ◌*ℤ◌
purchase_fine raised = absurd (ground arith)

place_order-IsBalanced_example :
    IsBalanced (pos 1000) (place_order engine purchase context).0.wallet
place_order-IsBalanced_example =
    place_order-IsBalanced truncated truncated_self engine purchase context engine-IsKeyed
      purchase_averages engine-IsBalanced purchase_fine

place_order-IsSound_example : IsSound true (place_order engine sale context).0.wallet
place_order-IsSound_example = place_order-IsSound engine sale context engine-IsSound

place_order-Delivers_example : Delivers engine sale 7 (place_order engine sale context)
place_order-Delivers_example = place_order-Delivers engine sale 7 context engine-IsKeyed

sale_passes : screen engine sale context ≡ none
unfolding screen available fill_price prior_order ◌+ℤ◌ ◌-ℤ◌ ◌*ℤ◌
sale_passes = refl

close_loop_done_example :
    let f = start engine.wallet 25 5 in
    next_match (closes sale) (close_loop zero_cost sell (pos 12) (closes sale) 2 f) ≡ none
close_loop_done_example =
    close_loop_done zero_cost sell (pos 12) (closes sale) 2 (start engine.wallet 25 5)
      engine-IsKeyed (omega arith)

abbrev after_purchase : Engine ℤ
after_purchase = (place_order engine purchase context).0

abbrev receipt : Order ℤ
receipt = record {
  order_id = 40;
  symbol = 7;
  side = buy;
  quantity = 4;
  order_type = market;
  price = pos 12;
  status = filled;
  timestamp = 3;
  reason = 9;
  trade_id = 6;
  position_id = 6;
  idempotency_key = 77;
  realized_pnl = pos 0;
  entry_charges = pos 0;
  exit_charges = pos 0;
}

purchase-receipt : place_order engine purchase context ≡ (after_purchase, placed receipt)
unfolding place_order execute screen closing close_loop next_match find open_leg open_position
    open_at new_position finish fill_price charges prior_order ◌+ℤ◌ ◌-ℤ◌ ◌*ℤ◌
purchase-receipt = refl

-- The same key again, with another size.
abbrev again : Request ℤ
again = record purchase { quantity = pos 90 }

-- Another order and a new price come between the two.
abbrev between : List (Turn ℤ)
between =
    ordering (record again { idempotency_key = 77; quantity = pos 1 })
      (record context { order_id = 49 })
    ∷ marking ((again.symbol, pos 3) ∷ [])
    ∷ []

place_order_once_example :
    place_order (take_turns between after_purchase) again (record context { order_id = 50 })
    ≡ (take_turns between after_purchase, placed (record receipt { status = duplicate }))
place_order_once_example =
    place_order_once engine purchase again context (record context { order_id = 50 }) between
      {e' = after_purchase} {o = receipt} purchase-receipt (inl refl)
      (λ same. absurd (ground arith)) refl refl

clash_raises : (place_order engine clash context).1 ≡ value_error
unfolding place_order execute screen closing close_loop next_match find open_leg open_position
    open_at fill_price charges finish prior_order ◌+ℤ◌ ◌-ℤ◌ ◌*ℤ◌
clash_raises = refl

place_order_error_loses_example :
    let w = (place_order engine clash context).0.wallet in
    w.balance
      +ℤ committed w.positions
      +ℤ (order_price engine clash *ℤ pos (closing engine clash).remaining
          +ℤ leg_cost engine (order_price engine clash) (closing engine clash))
    ≡ pos 1000 +ℤ w.realized_pnl
place_order_error_loses_example =
    place_order_error_loses truncated truncated_self engine clash context engine-IsKeyed
      engine-IsBalanced clash_raises

reported :
    (get_win_rate (place_order engine sale context).0.wallet ≡ pos 100)
    × (length (get_orders_for_trade 5 (place_order engine sale context).0) ≡ 1)
    × ((reset true (place_order engine sale context).0).wallet.balance ≡ pos 1000)
unfolding get_win_rate get_orders_for_trade reset place_order execute screen closing close_loop
    close_leg next_match find take_shares open_leg finish fill_price charges prior_order available
    ◌+ℤ◌ ◌-ℤ◌ ◌*ℤ◌
reported = (refl, refl, refl)
