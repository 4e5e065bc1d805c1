-- ===== src/Service.antt =====
-- src/markets/nse/execution/service.py: the execution service, the one entry point for orders, and
-- `resolve_effective_execution_mode` of src/config/settings.py. The broker's adapter is outside: what it
-- answers is an input. `Service.Keys` has the idempotency store, `Service.Broker` the live route with
-- src/markets/nse/execution/live_executor.py, `Service.Submit` the submissions.
pub mod Keys
pub mod Broker
pub mod Submit
pub mod Gate
pub mod Recent
pub mod Once
pub mod Unconfirmed
pub mod Drift
mod Samples
use delta_quant.Prelude.{ℕ, Bool, true, false, ◌&&◌, if◌then◌else◌, Text}
use delta_quant.Prelude.Int.{ℤ}
use delta_quant.Costs.{Side}

pub data ExecutionMode : Type 0 where
  local_paper shadow dhan_paper live : ExecutionMode

abbrev pub is_paper_mode : ExecutionMode → Bool
is_paper_mode local_paper = true
is_paper_mode shadow = true
is_paper_mode dhan_paper = false
is_paper_mode live = false

abbrev pub is_shadow_mode : ExecutionMode → Bool
is_shadow_mode shadow = true
is_shadow_mode _ = false

-- The flags of the settings that `_resolve_mode` reads: `trading_mode == "live"`, and both Dhan
-- credentials present.
pub record Gates : Type 0 where
  pub allow_live_orders : Bool
  pub trading_mode_live : Bool
  pub has_dhan_credentials : Bool

unfoldable pub resolve_effective_execution_mode : ExecutionMode → Gates → ExecutionMode
resolve_effective_execution_mode local_paper g = local_paper
resolve_effective_execution_mode shadow g = shadow
resolve_effective_execution_mode dhan_paper g = shadow
resolve_effective_execution_mode live g =
    if g.allow_live_orders && g.trading_mode_live && g.has_dhan_credentials then live else shadow

-- The status texts of an `ExecutionResult`: those of the paper engine, and `"BLOCKED"`.
pub data ResultStatus : Type 0 where
  filled partially_filled rejected pending blocked duplicate : ResultStatus

pub data Message : Type 0 where
  local_fill shadow_fill idempotency_hit kill_switch_active needs_async no_executor : Message
  broker_says : Text → Message

pub record ExecutionResult (R : Type 0) : Type 0 where
  pub status : ResultStatus
  pub symbol : Text
  pub side : Side
  pub quantity : ℤ
  pub fill_price : R
  pub mode : ExecutionMode
  pub client_order_id : Text
  pub order_id : Text
  pub is_shadow : Bool
  pub is_duplicate : Bool
  pub message : Message
  pub trade_id : Text
  pub position_id : Text
  pub realized_pnl : R
  pub entry_charges : R
  pub exit_charges : R

-- What `_record_if_filled` tests.
abbrev pub transacted : ResultStatus → Bool
transacted filled = true
transacted partially_filled = true
transacted _ = false
