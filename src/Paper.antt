-- ===== src/Paper.antt =====
-- src/markets/nse/execution/paper_engine.py: the local paper-trading engine. This file has its data;
-- `Paper.Close`, `Paper.Screen` and `Paper.Place` have the order path, the other children what is proved of it.
-- An engine owns one namespace of the database, so the rows of other namespaces are left out, and so
-- are the labels that are constant for an engine (market, provider, account, execution mode).
pub mod Close
pub mod Screen
pub mod Place
pub mod Book
pub mod Loop
pub mod Stages
pub mod Accounts
pub mod NetWorth
pub mod Shares
pub mod Soundness
pub mod Sales
pub mod Fills
pub mod Delivery
pub mod Replay
pub mod Errors
pub mod Portfolio
mod Samples
use delta_quant.Prelude.{
  ℕ, Bool, true, false, Option, none, some, List, [], ◌∷◌, ◌&&◌, if◌then◌else◌, Text,
}
use delta_quant.Prelude.Dict.{Dict}
use delta_quant.Prelude.Int.{ℤ}
use delta_quant.Prelude.Real.{Real, real, ◌⊕◌, ◌⊖◌, ◌⊗◌, ◌⊘◌, ◌≺◌, ◌≼◌, maximum, minimum}
use delta_quant.Costs.{Side, buy, sell, CostModel}

-- `"real"` and `"simulated"`: where a price comes from.
pub data QuoteSource : Type 0 where
  genuine simulated : QuoteSource

-- src/markets/nse/execution/runtime_mode.py
pub data RuntimeExecutionMode : Type 0 where
  market_paper mock : RuntimeExecutionMode

abbrev pub expected_quote_source : RuntimeExecutionMode → QuoteSource
expected_quote_source mock = simulated
expected_quote_source market_paper = genuine

abbrev pub same_source : QuoteSource → QuoteSource → Bool
same_source genuine genuine = true
same_source simulated simulated = true
same_source _ _ = false

abbrev pub same_side : Side → Side → Bool
same_side buy buy = true
same_side sell sell = true
same_side _ _ = false

abbrev pub opposite : Side → Side
opposite buy = sell
opposite sell = buy

pub data OrderType : Type 0 where
  market limit : OrderType

pub data OrderStatus : Type 0 where
  filled partially_filled rejected pending duplicate : OrderStatus

pub record Position (R : Type 0) : Type 0 where
  pub position_id : Text
  pub symbol : Text
  pub side : Side
  pub quantity : ℕ
  pub entry_price : R
  pub entry_time : ℕ
  pub current_price : R
  pub unrealized_pnl : R
  pub unrealized_pnl_pct : R
  pub entry_charges : R
  pub mae : R
  pub mfe : R
  pub highest_price : R
  pub lowest_price : R
  pub stop_loss : R
  pub target_price : R
  pub strategy : Text
  pub entry_data_source : QuoteSource

pub record Order (R : Type 0) : Type 0 where
  pub order_id : Text
  pub symbol : Text
  pub side : Side
  pub quantity : ℕ
  pub order_type : OrderType
  pub price : R
  pub status : OrderStatus
  pub timestamp : ℕ
  pub reason : Text
  pub trade_id : Text
  pub position_id : Text
  pub idempotency_key : Text
  pub realized_pnl : R
  pub entry_charges : R
  pub exit_charges : R

-- The part of the engine that a fill changes, and that a failed commit restores.
pub record Wallet (R : Type 0) : Type 0 where
  pub balance : R
  pub positions : Dict (Position R)
  pub realized_pnl : R
  pub total_trades : ℕ
  pub winning_trades : ℕ
  pub losing_trades : ℕ

-- The rows of the engine's namespace: the wallet with its positions, and every order placed.
pub record Durable (R : Type 0) : Type 0 where
  pub saved : Option (Wallet R)
  pub rows : List (Order R)

pub record Engine (R : Type 0) : Type 0 where
  pub mode : RuntimeExecutionMode
  pub long_only : Bool
  pub cost_model : CostModel R
  pub initial_balance : R
  pub wallet : Wallet R
  pub orders : List (Order R)
  pub durable : Durable R

-- The literal texts that the engine writes into `Order.reason`.
abbrev pub quote_source_mismatch : Text
quote_source_mismatch = 1

abbrev pub invalid_quantity_or_price : Text
invalid_quantity_or_price = 2

abbrev pub persistence_error : Text
persistence_error = 3

module _ {R : Type 0} ⦃r : Real R⦄ where
  -- `a == b` on floats
  abbrev pub equal : R → R → Bool
  equal a b = a ≼ b && b ≼ a

  -- `a or b` on floats
  abbrev pub or_real : R → R → R
  or_real a b = if equal a (real 0) then b else a

  -- `Position.__post_init__`
  abbrev pub post_init : Position R → Position R
  post_init p = record p {
    highest_price = or_real p.highest_price p.entry_price;
    lowest_price = or_real p.lowest_price p.entry_price;
  }

  abbrev signed_gain : Side → R → R → R
  signed_gain buy entry price = price ⊖ entry
  signed_gain sell entry price = entry ⊖ price

  abbrev pub favourable : Side → R → R → R → R
  favourable buy entry highest lowest = highest ⊖ entry
  favourable sell entry highest lowest = entry ⊖ lowest

  abbrev pub adverse : Side → R → R → R → R
  adverse buy entry highest lowest = entry ⊖ lowest
  adverse sell entry highest lowest = highest ⊖ entry

  -- `Position.update_pnl`
  pub update_pnl : R → Position R → Position R
  update_pnl price p =
      let high = maximum p.highest_price price in
      let low = minimum p.lowest_price price in
      let size = real p.quantity in
      let gain = signed_gain p.side p.entry_price price ⊗ size in
      record p {
        current_price = price;
        highest_price = high;
        lowest_price = low;
        unrealized_pnl = gain;
        mfe = maximum p.mfe (favourable p.side p.entry_price high low ⊗ size);
        mae = maximum p.mae (adverse p.side p.entry_price high low ⊗ size);
        unrealized_pnl_pct =
            if real 0 ≺ p.entry_price
            then gain ⊘ (p.entry_price ⊗ size) ⊗ real 100
            else p.unrealized_pnl_pct;
      }
