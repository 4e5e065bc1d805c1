-- ===== src/Service/Samples.antt =====
-- Submissions on paper and to the broker, in whole units.
use delta_quant.Prelude.{◌≡◌, ◌≢◌, ◌↔◌, refl, true, false, none, some, List, [], ◌∷◌, arith, Text}
use delta_quant.Prelude.Int.{ℤ, pos, ◌+ℤ◌, ◌-ℤ◌, ◌*ℤ◌}
use delta_quant.Prelude.Real.{Real}
use delta_quant.Prelude.Whole.{whole_units}
use delta_quant.Costs.{buy, sell, zero_cost, fill_price, charges}
use delta_quant.Paper.{genuine, market_paper, market, Engine}
use delta_quant.Paper.Close.{next_match, close_loop, find}
use delta_quant.Paper.Screen.{Request, screen, prior_order}
use delta_quant.Paper.Place.{
  place_order, closing, execute, finish, open_leg, open_position, open_at, new_position,
}
use delta_quant.Service.{
  local_paper, live, Gates, resolve_effective_execution_mode, rejected, filled, ExecutionResult,
  local_fill,
}
use delta_quant.Service.Keys.{seen}
use delta_quant.Service.Broker.{
  placed, BrokerResult, broker_request, poll_status, place_and_confirm, live_result,
}
use delta_quant.Service.Submit.{
  Service, Outside, answered, guard, submit, submit_async, submit_live, fill_paper,
  record_if_filled, repeated,
}
use delta_quant.Service.Gate.{Passed, submit_async_gated}
use delta_quant.Service.Once.{submit_all, submit_async_once}
use delta_quant.Service.Unconfirmed.{unconfirmed_resubmits}
use delta_quant.Service.Drift.{Holding, reconcile_positions, Agree}
use delta_quant.Service.Drift.Exact.{reconcile_positions_exact}

instance abbrev whole : Real ℤ
whole = whole_units

abbrev client : Text → Text
client key = key

abbrev engine : Engine ℤ
engine = record {
  mode = market_paper;
  long_only = true;
  cost_model = zero_cost;
  initial_balance = pos 1000;
  wallet = record {
    balance = pos 1000;
    positions = [];
    realized_pnl = pos 0;
    total_trades = 0;
    winning_trades = 0;
    losing_trades = 0;
  };
  orders = [];
  durable = record { saved = none; rows = [] };
}

abbrev purchase : Request ℤ
purchase = record {
  symbol = 7;
  side = buy;
  quantity = pos 4;
  current_price = pos 12;
  order_type = market;
  reason = 9;
  trade_id = 6;
  position_id = 0;
  idempotency_key = 77;
  stop_loss = pos 9;
  target_price = pos 15;
  strategy = 0;
  entry_data_source = genuine;
}

abbrev taken : BrokerResult ℤ
taken = record {
  order_id = 60;
  status = placed;
  filled_quantity = 0;
  average_price = pos 0;
  message = 0;
}

abbrev silent : Outside ℤ
silent = record {
  context = record { order_id = 40; timestamp = 3; fresh_position_id = 41; commits = true };
  kill = false;
  reads = true;
  writes = true;
  trims = true;
  first = taken;
  answers = none ∷ some taken ∷ [];
}

abbrev paper_service : Service ℤ
paper_service = record {
  engine = engine;
  effective_mode = local_paper;
  has_executor = false;
  poll_attempts = 2;
  keys = [];
  sent = [];
}

abbrev live_service : Service ℤ
live_service = record paper_service { effective_mode = live; has_executor = true }

abbrev all_gates : Gates
all_gates = record {
  allow_live_orders = true;
  trading_mode_live = true;
  has_dhan_credentials = true;
}

unconfirmed_resubmits_example :
    let (s', answer) = submit_async client 5000 live_service purchase silent in
    ((result : ExecutionResult ℤ) × (answer ≡ answered result) × (result.status ≡ rejected))
    × ((submit_async client 5000 s' purchase silent).0.sent
        ≡ broker_request purchase ∷ broker_request purchase ∷ [])
unconfirmed_resubmits_example =
    unconfirmed_resubmits client 5000 live_service purchase purchase silent silent refl refl refl
      refl refl refl (refl, tt) refl

goes_out : (submit_async client 5000 live_service purchase silent).0.sent ≢ []
unfolding submit_async guard seen submit_live record_if_filled live_result place_and_confirm
    poll_status
goes_out same = absurd (ground arith)

resolved_live : live ≡ resolve_effective_execution_mode live all_gates
unfolding resolve_effective_execution_mode
resolved_live = refl

submit_async_gated_example :
    ((live ≡ live)
      × (all_gates.allow_live_orders ≡ true)
      × (all_gates.trading_mode_live ≡ true)
      × (all_gates.has_dhan_credentials ≡ true))
    × Passed client 5000 live_service purchase silent
submit_async_gated_example =
    submit_async_gated client 5000 live all_gates live_service purchase silent resolved_live
      goes_out

-- No live order by the synchronous entry.
submit_refuses : (submit client 5000 live_service purchase silent).0 ≡ live_service
unfolding submit guard seen
submit_refuses = refl

abbrev after_purchase : Service ℤ
after_purchase = (submit_async client 5000 paper_service purchase silent).0

abbrev receipt : ExecutionResult ℤ
receipt = record {
  status = filled;
  symbol = 7;
  side = buy;
  quantity = pos 4;
  fill_price = pos 12;
  mode = local_paper;
  client_order_id = 77;
  order_id = 40;
  is_shadow = false;
  is_duplicate = false;
  message = local_fill;
  trade_id = 6;
  position_id = 6;
  realized_pnl = pos 0;
  entry_charges = pos 0;
  exit_charges = pos 0;
}

purchase-receipt :
    submit_async client 5000 paper_service purchase silent ≡ (after_purchase, answered receipt)
unfolding submit_async guard seen fill_paper record_if_filled place_order execute screen closing
    close_loop next_match find open_leg open_position open_at new_position finish fill_price charges
    prior_order ◌+ℤ◌ ◌-ℤ◌ ◌*ℤ◌
purchase-receipt = refl

-- Another order in between, then the key again with another size.
abbrev between : List (Request ℤ × Outside ℤ)
between = (record purchase { idempotency_key = 78 }, silent) ∷ []

submit_async_once_example :
    let s'' = submit_all client 5000 between after_purchase in
    let again = record purchase { quantity = pos 90 } in
    submit_async client 5000 s'' again silent
    ≡ (s'', answered (repeated client 5000 s'' again receipt))
submit_async_once_example =
    submit_async_once client 5000 paper_service after_purchase purchase
      (record purchase { quantity = pos 90 }) silent silent receipt between purchase-receipt refl
      refl refl refl (omega arith) (λ same. absurd (ground arith), tt) refl

-- Two lots here, one net position and a closed one there.
abbrev book_lots : List Holding
book_lots =
    record { symbol = 7; quantity = pos 4; side = buy }
    ∷ record { symbol = 8; quantity = pos 2; side = sell }
    ∷ record { symbol = 7; quantity = pos 1; side = sell }
    ∷ []

abbrev broker_lots : List Holding
broker_lots =
    record { symbol = 8; quantity = pos 2; side = sell }
    ∷ record { symbol = 7; quantity = pos 3; side = buy }
    ∷ record { symbol = 0; quantity = pos 9; side = buy }
    ∷ []

lots_in_sync : (reconcile_positions book_lots broker_lots).in_sync ≡ true
unfolding reconcile_positions ◌+ℤ◌ ◌-ℤ◌
lots_in_sync = refl

reconcile_positions_exact_example :
    ((reconcile_positions book_lots broker_lots).in_sync ≡ true) ↔ Agree book_lots broker_lots
reconcile_positions_exact_example = reconcile_positions_exact book_lots broker_lots
