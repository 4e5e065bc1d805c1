-- ===== src/Startup/Samples.antt =====
-- A start after a crash, in whole units: the wallet holds a position of trade 5, the ledger has it as an
-- intent still; trade 6 was filled and sold without the ledger knowing; the exit manager tracks a
-- trade that is gone.
use delta_quant.Prelude.{◌≡◌, refl, false, some, List, [], ◌∷◌, arith, Text}
use delta_quant.Prelude.Int.{ℤ, pos, ◌+ℤ◌, ◌*ℤ◌}
use delta_quant.Prelude.Real.{Real}
use delta_quant.Prelude.Whole.{whole_units}
use delta_quant.Costs.{buy, sell}
use delta_quant.Paper.{Position, Order, filled, rejected, market, genuine}
use delta_quant.Exits.{ManagedPosition, get_position, register_position, unregister_position}
use delta_quant.Lifecycle.{Trade, Store, Intent, get, commit, get_open, get_by_status}
use delta_quant.Lifecycle.Operations.{
  create_intent, mark_open, record_add, record_exit, mark_rejected, intended_trade,
}
use delta_quant.Startup.{
  Progress, done, failed, repaired_from_orders, repair_from_orders, replay_leg, replay_legs,
  entry_reason, capped_average,
}
use delta_quant.Startup.Replay.{IsReplayed, repair_from_orders_replays}
use delta_quant.Startup.Reconcile.{
  Startup, reconcile, adopt, adopt_all, resolve_orphan, resolve_orphans, remove_ghosts,
  empty_report,
}
use delta_quant.Startup.Managers.{NoGhosts, reconcile-NoGhosts}

instance abbrev whole : Real ℤ
whole = whole_units

abbrev plan_of : Text → Intent ℤ
plan_of id = record {
  trade_id = id;
  namespace = 1;
  run_id = 2;
  workflow_id = 3;
  idempotency_key = id;
  signal_id = 4;
  symbol = 7;
  side = buy;
  strategy = 8;
  timeframe = 9;
  regime = 1;
  quantity = 10;
  entry_price = pos 100;
  stop_loss = pos 90;
  target_price = pos 130;
}

abbrev ledger : Store ℤ
ledger = record {
  trades = (5, intended_trade 1 (plan_of 5)) ∷ (6, intended_trade 1 (plan_of 6)) ∷ [];
  events = [];
}

abbrev buying : Order ℤ
buying = record {
  order_id = 40;
  symbol = 7;
  side = buy;
  quantity = 10;
  order_type = market;
  price = pos 101;
  status = filled;
  timestamp = 2;
  reason = entry_reason;
  trade_id = 6;
  position_id = 6;
  idempotency_key = 6;
  realized_pnl = pos 0;
  entry_charges = pos 1;
  exit_charges = pos 0;
}

abbrev topping_up : Order ℤ
topping_up = record buying { order_id = 41; quantity = 2; reason = capped_average }

abbrev selling : Order ℤ
selling = record buying {
  order_id = 42;
  side = sell;
  quantity = 12;
  reason = 0;
  realized_pnl = pos 60;
}

abbrev orders : List (Order ℤ)
orders = record buying { status = rejected } ∷ buying ∷ topping_up ∷ selling ∷ []

repair_from_orders_replays_example :
    (s' : Store ℤ) × (t' : Trade ℤ) × (repair_from_orders 9 6 orders ledger
      ≡ (done s', repaired_from_orders))
    × (get 6 s' ≡ some t')
    × IsReplayed 9 6 (intended_trade 1 (plan_of 6)) buying (topping_up ∷ selling ∷ []) t'
repair_from_orders_replays_example =
    repair_from_orders_replays 9 6 orders buying (topping_up ∷ selling ∷ []) ledger
      (intended_trade 1 (plan_of 6)) refl refl refl refl (omega arith) refl

abbrev position : Position ℤ
position = record {
  position_id = 5;
  symbol = 7;
  side = buy;
  quantity = 10;
  entry_price = pos 101;
  entry_time = 0;
  current_price = pos 103;
  unrealized_pnl = pos 20;
  unrealized_pnl_pct = pos 1;
  entry_charges = pos 1;
  mae = pos 0;
  mfe = pos 0;
  highest_price = pos 103;
  lowest_price = pos 101;
  stop_loss = pos 90;
  target_price = pos 130;
  strategy = 8;
  entry_data_source = genuine;
}

abbrev ghost : ManagedPosition ℤ
ghost = record {
  position_id = 3;
  symbol = 7;
  side = buy;
  quantity = 1;
  entry_price = pos 100;
  entry_time = 0;
  stop_loss = pos 90;
  target_price = pos 130;
  strategy = 0;
  timeframe = 2;
  regime_at_entry = 1;
  current_stop = pos 90;
  highest_price = pos 100;
  lowest_price = pos 100;
  breakeven_moved = false;
  partial_taken = false;
  mae = pos 0;
  mfe = pos 0;
}

abbrev crashed : Startup ℤ
crashed = record { ledger = ledger; tracked = (3, ghost) ∷ []; report = empty_report }

abbrev legacy : Text → Text
legacy id = id

abbrev state_after : Progress (Startup ℤ) → Startup ℤ
state_after (done s) = s
state_after (failed e s) = s

abbrev restarted : Startup ℤ
restarted = state_after (reconcile 9 1 legacy 99 (position ∷ []) (some (λ id. orders)) crashed)

restarts : reconcile 9 1 legacy 99 (position ∷ []) (some (λ id. orders)) crashed ≡ done restarted
unfolding reconcile adopt adopt_all resolve_orphan resolve_orphans remove_ghosts repair_from_orders
    replay_leg replay_legs create_intent mark_open record_add record_exit mark_rejected commit
    get_open get_by_status get_position register_position unregister_position ◌+ℤ◌ ◌*ℤ◌
restarts = refl

reconcile-NoGhosts_example : NoGhosts restarted
reconcile-NoGhosts_example =
    reconcile-NoGhosts 9 1 legacy 99 (position ∷ []) (some (λ id. orders)) crashed restarted
      (refl, refl, tt) restarts
