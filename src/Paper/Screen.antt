-- ===== src/Paper/Screen.antt =====
-- The request of `LocalPaperEngine.place_order`, and its exits before anything is changed.
-- A call is given the request, and what it takes from outside: the new ids, the clock, and whether the
-- database transaction commits.
use delta_quant.Prelude.{
  ℕ, ◌+◌, Bool, not, Option, none, some, List, [], ◌∷◌, ◌&&◌, ◌||◌, ltb, ◌==◌, if◌then◌else◌, Text,
  empty_text, or_else,
}
use delta_quant.Prelude.Dict.{Dict}
use delta_quant.Prelude.Int.{ℤ, pos, leb_ℤ, pos_part}
use delta_quant.Prelude.Real.{Real, real, ◌≼◌, maximum}
use delta_quant.Costs.{Side, buy, fill_price}
use delta_quant.Paper.{
  QuoteSource, expected_quote_source, same_source, same_side, OrderType, market, limit, OrderStatus,
  rejected, pending, duplicate, Position, Order, Engine, quote_source_mismatch,
  invalid_quantity_or_price,
}
use delta_quant.Paper.Close.{concerns}

-- The arguments of `place_order`; the quantity may be negative.
pub record Request (R : Type 0) : Type 0 where
  pub symbol : Text
  pub side : Side
  pub quantity : ℤ
  pub current_price : R
  pub order_type : OrderType
  pub reason : Text
  pub trade_id : Text
  pub position_id : Text
  pub idempotency_key : Text
  pub stop_loss : R
  pub target_price : R
  pub strategy : Text
  pub entry_data_source : QuoteSource

pub record Context : Type 0 where
  pub order_id : Text
  pub timestamp : ℕ
  pub fresh_position_id : Text
  pub commits : Bool

module _ {R : Type 0} where
  -- The row of the order ledger that has this idempotency key.
  unfoldable pub prior_order : Text → List (Order R) → Option (Order R)
  prior_order key [] = none
  prior_order key (o ∷ os) = if o.idempotency_key == key then some o else prior_order key os

  abbrev seen_before : Text → List (Order R) → Option (Order R)
  seen_before key rows = if key == empty_text then none else prior_order key rows

  -- The shares that a long-only SELL may take.
  unfoldable pub available : Text → Text → Dict (Position R) → ℕ
  available symbol position_id [] = 0
  available symbol position_id ((k, p) ∷ ps) =
      if concerns symbol buy position_id p
      then p.quantity + available symbol position_id ps
      else available symbol position_id ps

module _ {R : Type 0} ⦃r : Real R⦄ where
  -- An order with no fill yet.
  abbrev pub blank : Request R → Context → ℕ → R → OrderStatus → Text → Text → Order R
  blank q x quantity price status reason position_id = record {
    order_id = x.order_id;
    symbol = q.symbol;
    side = q.side;
    quantity = quantity;
    order_type = q.order_type;
    price = price;
    status = status;
    timestamp = x.timestamp;
    reason = reason;
    trade_id = q.trade_id;
    position_id = position_id;
    idempotency_key = q.idempotency_key;
    realized_pnl = real 0;
    entry_charges = real 0;
    exit_charges = real 0;
  }

  -- The exits of `place_order` before anything is changed.
  unfoldable pub screen : Engine R → Request R → Context → Option (Order R)
  screen e q x =
      let position_id = or_else q.position_id q.trade_id in
      let listed = maximum (real 0) q.current_price in
      let size = pos_part q.quantity in
      let price = fill_price e.cost_model q.current_price q.side in
      let sells = not (same_side q.side buy) in
      if not (same_source q.entry_data_source (expected_quote_source e.mode))
      then some (blank q x 0 listed rejected quote_source_mismatch position_id)
      else elim (seen_before q.idempotency_key e.durable.rows) [
        | some prior ↦ some (record prior {
          status = duplicate;
          idempotency_key = q.idempotency_key;
          entry_charges = real 0;
          exit_charges = real 0;
        })
        | none ↦
            if leb_ℤ q.quantity (pos 0) || q.current_price ≼ real 0
            then some (blank q x 0 listed rejected invalid_quantity_or_price position_id)
            else elim q.order_type [
              | limit ↦ some (blank q x size q.current_price pending q.reason position_id)
              | market ↦
                  if e.long_only
                    && sells
                    && ltb (available q.symbol position_id e.wallet.positions) size
                  then some (blank q x size price rejected q.reason position_id)
                  else none
            ]
      ]
