-- ===== src/Service/Submit.antt =====
-- `ExecutionService.submit` and `submit_async`.
use delta_quant.Prelude.{
  ℕ, Bool, true, false, Option, none, some, List, [], ◌∷◌, ◌++◌, if◌then◌else◌, Text,
}
use delta_quant.Prelude.Dict.{Dict}
use delta_quant.Prelude.Int.{pos}
use delta_quant.Prelude.Real.{Real, real}
use delta_quant.Paper.{Engine, Order, OrderStatus}
use delta_quant.Paper
use delta_quant.Paper.Screen.{Request, Context}
use delta_quant.Paper.Place.{Reply, placed, value_error, place_order}
use delta_quant.Service.{
  ExecutionMode, is_paper_mode, is_shadow_mode, ResultStatus, filled, partially_filled, rejected,
  pending, blocked, duplicate, Message, local_fill, shadow_fill, idempotency_hit,
  kill_switch_active, needs_async, no_executor, ExecutionResult, transacted,
}
use delta_quant.Service.Keys.{seen, record_key}
use delta_quant.Service.Broker.{
  BrokerRequest, BrokerResult, place_and_confirm, broker_request, live_result,
}

-- The service with its engine, its idempotency rows and the orders that went to the broker.
pub record Service (R : Type 0) : Type 0 where
  pub engine : Engine R
  pub effective_mode : ExecutionMode
  pub has_executor : Bool
  pub poll_attempts : ℕ
  pub keys : Dict (ExecutionResult R)
  pub sent : List (BrokerRequest R)

-- What a submission takes from outside: the inputs of the engine, the kill switch, whether the store's
-- query and its two commits succeed, and what the broker answers.
pub record Outside (R : Type 0) : Type 0 where
  pub context : Context
  pub kill : Bool
  pub reads : Bool
  pub writes : Bool
  pub trims : Bool
  pub first : BrokerResult R
  pub answers : List (Option (BrokerResult R))

-- A result, or the `ValueError` of the engine.
pub data Answer (R : Type 0) : Type 0 where
  answered : ExecutionResult R → Answer R
  raised : Answer R

abbrev as_result_status : OrderStatus → ResultStatus
as_result_status Paper.filled = filled
as_result_status Paper.partially_filled = partially_filled
as_result_status Paper.rejected = rejected
as_result_status Paper.pending = pending
as_result_status Paper.duplicate = duplicate

abbrev is_duplicate_status : ResultStatus → Bool
is_duplicate_status duplicate = true
is_duplicate_status _ = false

-- The hash behind `_client_order_id`, and the number of rows that the store keeps.
module _ {R : Type 0} ⦃r : Real R⦄ (client_id : Text → Text) (limit : ℕ) where
  -- A result with nothing filled.
  abbrev pub unfilled : Service R → Request R → ResultStatus → Message → ExecutionResult R
  unfilled s q status message = record {
    status = status;
    symbol = q.symbol;
    side = q.side;
    quantity = q.quantity;
    fill_price = real 0;
    mode = s.effective_mode;
    client_order_id = client_id q.idempotency_key;
    order_id = 0;
    is_shadow = false;
    is_duplicate = false;
    message = message;
    trade_id = 0;
    position_id = 0;
    realized_pnl = real 0;
    entry_charges = real 0;
    exit_charges = real 0;
  }

  -- The answer to a key that was seen.
  abbrev pub repeated : Service R → Request R → ExecutionResult R → ExecutionResult R
  repeated s q prior = record (unfilled s q duplicate idempotency_hit) {
    fill_price = prior.fill_price;
    order_id = prior.order_id;
    is_shadow = prior.is_shadow;
    is_duplicate = true;
  }

  unfoldable pub guard : Service R → Request R → Outside R → Option (ExecutionResult R)
  guard s q o = elim (seen o.reads q.idempotency_key s.keys) [
    | some prior ↦ some (repeated s q prior)
    | none ↦ if o.kill then some (unfilled s q blocked kill_switch_active) else none
  ]

  abbrev pub paper_result : Service R → Request R → Order R → ExecutionResult R
  paper_result s q order =
      let status = as_result_status order.status in
      record {
        status = status;
        symbol = q.symbol;
        side = q.side;
        quantity = pos order.quantity;
        fill_price = order.price;
        mode = s.effective_mode;
        client_order_id = client_id q.idempotency_key;
        order_id = order.order_id;
        is_shadow = is_shadow_mode s.effective_mode;
        is_duplicate = is_duplicate_status status;
        message = if is_shadow_mode s.effective_mode then shadow_fill else local_fill;
        trade_id = q.trade_id;
        position_id = order.position_id;
        realized_pnl = order.realized_pnl;
        entry_charges = order.entry_charges;
        exit_charges = order.exit_charges;
      }

  -- `_record_if_filled`
  unfoldable pub record_if_filled : Outside R → Text → ExecutionResult R → Service R → Service R
  unfolding record_key
  record_if_filled o key result s =
      if transacted result.status
      then record s { keys = record_key limit o.writes o.trims key result s.keys }
      else s

  -- The paper route, then the record; an error of the engine leaves before it.
  abbrev pub settled_paper :
      Outside R → Request R → Service R → Engine R × Reply R → Service R × Answer R
  settled_paper o q s (e, placed order) =
      let result = paper_result s q order in
      (record_if_filled o q.idempotency_key result (record s { engine = e }), answered result)
  settled_paper o q s (e, value_error) = (record s { engine = e }, raised)

  unfoldable pub fill_paper : Service R → Request R → Outside R → Service R × Answer R
  unfolding record_if_filled
  fill_paper s q o = settled_paper o q s (place_order s.engine q o.context)

  unfoldable pub submit_live : Service R → Request R → Outside R → Service R × Answer R
  unfolding record_if_filled
  submit_live s q o =
      let confirmed = place_and_confirm s.poll_attempts o.first o.answers in
      let result = live_result s.effective_mode (client_id q.idempotency_key) q confirmed in
      let s' = record s { sent = s.sent ++ broker_request q ∷ [] } in
      (record_if_filled o q.idempotency_key result s', answered result)

  -- The synchronous entry: no live route.
  unfoldable pub submit : Service R → Request R → Outside R → Service R × Answer R
  submit s q o = elim (guard s q o) [
    | some stopped ↦ (s, answered stopped)
    | none ↦
        if is_paper_mode s.effective_mode
        then fill_paper s q o
        else (s, answered (unfilled s q rejected needs_async))
  ]

  -- By whether the mode is a paper mode, and whether an executor is attached.
  abbrev pub routed : Bool → Bool → Service R → Request R → Outside R → Service R × Answer R
  routed true has_executor s q o = fill_paper s q o
  routed false true s q o = submit_live s q o
  routed false false s q o = (s, answered (unfilled s q rejected no_executor))

  unfoldable pub submit_async : Service R → Request R → Outside R → Service R × Answer R
  submit_async s q o = elim (guard s q o) [
    | some stopped ↦ (s, answered stopped)
    | none ↦ routed (is_paper_mode s.effective_mode) s.has_executor s q o
  ]
