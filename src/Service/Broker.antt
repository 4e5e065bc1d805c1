-- ===== src/Service/Broker.antt =====
-- src/markets/nse/execution/live_executor.py: `LiveBrokerExecutor.place_and_confirm`
-- with the statuses of src/markets/nse/broker/dhan/execution.py, and
-- `ExecutionService._submit_live`. What the broker answers to the order and to each poll is an input.
use delta_quant.Prelude.{
  ℕ, zero, suc, Bool, true, false, Option, none, some, List, [], ◌∷◌, ◌==◌, if◌then◌else◌, Text,
}
use delta_quant.Prelude.Int.{ℤ, pos}
use delta_quant.Prelude.Real.{Real, real}
use delta_quant.Costs.{Side}
use delta_quant.Paper.{OrderType, or_real}
use delta_quant.Paper.Screen.{Request}
use delta_quant.Service.{
  ExecutionMode, ResultStatus, filled, partially_filled, rejected, ExecutionResult, broker_says,
}

pub data BrokerStatus : Type 0 where
  waiting placed completed partly_completed declined cancelled failed : BrokerStatus

pub record BrokerRequest (R : Type 0) : Type 0 where
  pub symbol : Text
  pub side : Side
  pub quantity : ℤ
  pub order_type : OrderType
  pub price : R

pub record BrokerResult (R : Type 0) : Type 0 where
  pub order_id : Text
  pub status : BrokerStatus
  pub filled_quantity : ℕ
  pub average_price : R
  pub message : Text

-- `_TERMINAL`
abbrev pub is_terminal : BrokerStatus → Bool
is_terminal waiting = false
is_terminal placed = false
is_terminal completed = true
is_terminal partly_completed = true
is_terminal declined = true
is_terminal cancelled = true
is_terminal failed = true

abbrev pub is_refused : BrokerStatus → Bool
is_refused declined = true
is_refused failed = true
is_refused _ = false

-- The text that marks a fill as unconfirmed.
abbrev pub fill_unconfirmed : Text
fill_unconfirmed = 4

module _ {R : Type 0} where
  -- The poll loop: `attempts` polls at most, the answers of the broker in their order.
  unfoldable pub poll_status : ℕ → List (Option (BrokerResult R)) → Option (BrokerResult R)
  poll_status zero answers = none
  poll_status (suc attempts) [] = none
  poll_status (suc attempts) (none ∷ answers) = poll_status attempts answers
  poll_status (suc attempts) (some answer ∷ answers) =
      if is_terminal answer.status then some answer else poll_status attempts answers

  unfoldable pub place_and_confirm :
      ℕ → BrokerResult R → List (Option (BrokerResult R)) → BrokerResult R
  unfolding poll_status
  place_and_confirm attempts first answers =
      if is_refused first.status then first else elim (poll_status attempts answers) [
        | some confirmed ↦ confirmed
        | none ↦ record first { message = fill_unconfirmed }
      ]

-- `status_map`
abbrev pub mapped : BrokerStatus → ResultStatus
mapped completed = filled
mapped partly_completed = partially_filled
mapped _ = rejected

module _ {R : Type 0} ⦃r : Real R⦄ where
  abbrev pub broker_request : Request R → BrokerRequest R
  broker_request q = record {
    symbol = q.symbol;
    side = q.side;
    quantity = q.quantity;
    order_type = q.order_type;
    price = q.current_price;
  }

  -- The answer of `_submit_live`, from the confirmed order.
  unfoldable pub live_result : ExecutionMode → Text → Request R → BrokerResult R → ExecutionResult R
  live_result mode client_order_id q confirmed = record {
    status = mapped confirmed.status;
    symbol = q.symbol;
    side = q.side;
    quantity = if confirmed.filled_quantity == 0 then q.quantity else pos confirmed.filled_quantity;
    fill_price = or_real confirmed.average_price q.current_price;
    mode = mode;
    client_order_id = client_order_id;
    order_id = confirmed.order_id;
    is_shadow = false;
    is_duplicate = false;
    message = broker_says confirmed.message;
    trade_id = 0;
    position_id = 0;
    realized_pnl = real 0;
    entry_charges = real 0;
    exit_charges = real 0;
  }
