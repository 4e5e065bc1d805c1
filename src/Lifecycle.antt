-- ===== src/Lifecycle.antt =====
-- src/markets/nse/execution/lifecycle.py: the durable ledger of paper trades, `PaperTradeLifecycleStore`.
-- A store is the rows of its two tables. An operation that raises leaves them as they were, for the
-- session is rolled back. `now` is the clock; quantities are those of fills, which are not negative.
pub mod Operations
pub mod History
pub mod Lives
pub mod Keys
pub mod Closing
mod Samples
use delta_quant.Prelude.{
  ℕ, ◌+◌, ◌-◌, Bool, true, false, Option, none, some, List, [], ◌∷◌, ◌++◌, ◌==◌, ◌||◌, ◌&&◌,
  if◌then◌else◌, Text,
}
use delta_quant.Prelude.Dict.{Dict, lookup, insert}
use delta_quant.Prelude.Real.{Real, real, ◌⊕◌, ◌⊗◌, ◌⊘◌, maximum}
use delta_quant.Costs.{Side}

pub data Status : Type 0 where
  intent opened partial closed rejected : Status

pub data EventType : Type 0 where
  intended entry_fill add_fill exit_fill partial_exit_fill turned_down finalized : EventType

-- A row of `paper_trade_lifecycles`; the rationale and the lessons are left out, of the context the regime is kept.
pub record Trade (R : Type 0) : Type 0 where
  pub trade_id : Text
  pub namespace : Text
  pub run_id : Text
  pub workflow_id : Text
  pub idempotency_key : Text
  pub signal_id : Text
  pub symbol : Text
  pub side : Side
  pub strategy : Text
  pub timeframe : Text
  pub regime : Text
  pub status : Status
  pub entry_order_id : Text
  pub position_id : Text
  pub original_quantity : ℕ
  pub remaining_quantity : ℕ
  pub add_count : ℕ
  pub entry_price : R
  pub weighted_entry_price : R
  pub current_price : R
  pub stop_loss : R
  pub target_price : R
  pub entry_charges : R
  pub exit_charges : R
  pub cumulative_pnl : R
  pub mae : R
  pub mfe : R
  pub created_at : ℕ
  pub updated_at : ℕ
  pub closed_at : Option ℕ
  pub finalized_at : Option ℕ

-- A row of `paper_trade_events`, without its own id and its metadata.
pub record Event (R : Type 0) : Type 0 where
  pub trade_id : Text
  pub namespace : Text
  pub event_type : EventType
  pub order_id : Text
  pub quantity : ℕ
  pub price : R
  pub realized_pnl : R
  pub reason : Text
  pub timestamp : ℕ

pub record Store (R : Type 0) : Type 0 where
  pub trades : Dict (Trade R)
  pub events : List (Event R)

-- What an operation raises: `KeyError`, `ValueError`, `ZeroDivisionError`, or the database's error on
-- a primary key that is there.
pub data Error : Type 0 where
  key_error value_error zero_division integrity_error : Error

pub data Result (A : Type 0) : Type 0 where
  ok : A → Result A
  err : Error → Result A

-- The arguments of `create_intent`; the trade id is the given one or the new one.
pub record Intent (R : Type 0) : Type 0 where
  pub trade_id : Text
  pub namespace : Text
  pub run_id : Text
  pub workflow_id : Text
  pub idempotency_key : Text
  pub signal_id : Text
  pub symbol : Text
  pub side : Side
  pub strategy : Text
  pub timeframe : Text
  pub regime : Text
  pub quantity : ℕ
  pub entry_price : R
  pub stop_loss : R
  pub target_price : R

-- The arguments of `mark_open` and `record_add`.
pub record EntryFill (R : Type 0) : Type 0 where
  pub order_id : Text
  pub position_id : Text
  pub quantity : ℕ
  pub fill_price : R
  pub entry_charges : R

-- The arguments of `record_exit`.
pub record ExitFill (R : Type 0) : Type 0 where
  pub order_id : Text
  pub quantity : ℕ
  pub exit_price : R
  pub realized_pnl : R
  pub exit_charges : R
  pub reason : Text
  pub mae : R
  pub mfe : R

abbrev pub same_status : Status → Status → Bool
same_status intent intent = true
same_status opened opened = true
same_status partial partial = true
same_status closed closed = true
same_status rejected rejected = true
same_status _ _ = false

abbrev pub is_open : Status → Bool
is_open status = same_status status opened || same_status status partial

abbrev pub pending : Option ℕ → Bool
pending none = true
pending (some time) = false

module _ {R : Type 0} where
  -- `session.get`, by the primary key.
  abbrev pub get : Text → Store R → Option (Trade R)
  get id s = lookup id s.trades

  -- `filter_by(idempotency_key=...).first()`
  unfoldable pub with_key : Text → Dict (Trade R) → Option (Trade R)
  with_key key [] = none
  with_key key ((id, t) ∷ ts) = if t.idempotency_key == key then some t else with_key key ts

  -- The changed row and its event, committed.
  unfoldable pub commit : Text → Trade R → Event R → Store R → Store R
  commit id t event s = record { trades = insert id t s.trades; events = s.events ++ event ∷ [] }

  abbrev selected : (Trade R → Bool) → Dict (Trade R) → List (Trade R)
  selected test [] = []
  selected test ((id, t) ∷ ts) = if test t then t ∷ selected test ts else selected test ts

  -- The filter `if namespace`.
  abbrev in_namespace : Text → Trade R → Bool
  in_namespace namespace t = namespace == 0 || t.namespace == namespace

  unfoldable pub get_unfinalized_closed : Text → Store R → List (Trade R)
  get_unfinalized_closed namespace s =
      selected
        (λ t. same_status t.status closed && pending t.finalized_at && in_namespace namespace t)
        s.trades

  unfoldable pub get_by_status : Status → Text → Store R → List (Trade R)
  get_by_status status namespace s =
      selected (λ t. same_status t.status status && in_namespace namespace t) s.trades

  unfoldable pub get_open : Text → Store R → List (Trade R)
  get_open namespace s = selected (λ t. is_open t.status && in_namespace namespace t) s.trades
