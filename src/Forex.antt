-- ===== src/Forex.antt =====
-- The local paper trading of the forex market. src/markets/forex/runtime/lifecycle.py: the record of a
-- decision with its stages; src/core/persistence.py: the tables of one market. `Forex.Manage` has
-- src/markets/forex/runtime/paper_positions.py. A payload is the fields that the code reads back; a
-- table is its rows by primary key, orders by their intent, for the intent is unique. Symbols and sides
-- are in upper case already.
pub mod Manage
pub mod Pretrade
pub mod Units
pub mod Conflicts
pub mod Grains
pub mod Answers
pub mod Primary
pub mod Afford
pub mod Sound
pub mod Steps
pub mod Exits
pub mod Once
mod Samples
mod SizeSamples
mod ConflictSamples
use delta_quant.Prelude.{
  not, ℕ, Bool, true, false, Option, none, some, List, [], ◌∷◌, ◌++◌, if◌then◌else◌, is_some,
  select, Text,
}
use delta_quant.Prelude.Dict.{Dict, lookup, insert}
use delta_quant.Prelude.Real.{Real, real}
use delta_quant.Costs.{Side}

pub data ForexDecisionStage : Type 0 where
  technical_signal consolidated_candidate eligibility_passed regime_passed : ForexDecisionStage
  entry_quality_passed ml_passed ml_skipped qwen_passed qwen_skipped : ForexDecisionStage
  risk_approved final_paper_decision paper_order_created position_open : ForexDecisionStage
  position_closed : ForexDecisionStage

pub record StageEntry : Type 0 where
  pub stage : ForexDecisionStage
  pub at : ℕ
  pub reason : Option Text

pub data FinalAction : Type 0 where
  no_action turned_down : FinalAction
  paper shadow : Side → FinalAction

-- A decision as it is kept in memory, and in its row.
pub record ForexDecisionLifecycle (R : Type 0) : Type 0 where
  pub decision_id : Text
  pub candidate_id : Text
  pub instrument : Text
  pub side : Side
  pub stop_price : R
  pub target_price : R
  pub current_stage : ForexDecisionStage
  pub rejection_reason : Option Text
  pub final_action : FinalAction
  pub order_id : Option Text
  pub position_id : Option Text
  pub stage_history : List StageEntry

pub data PositionStatus : Type 0 where
  is_open is_closed : PositionStatus

pub data ExitReason : Type 0 where
  stop target : ExitReason

pub record PaperPosition (R : Type 0) : Type 0 where
  pub position_id : Text
  pub decision_id : Text
  pub symbol : Text
  pub side : Side
  pub quantity : R
  pub stop_price : R
  pub target_price : R
  pub status : PositionStatus
  pub closed_at : Option ℕ
  pub exit : Option (ExitReason × R)

pub record PaperOrder : Type 0 where
  pub order_id : Text
  pub symbol : Text
  pub side : Side

-- The tables of the market.
pub record Repository (R : Type 0) : Type 0 where
  pub decisions : Dict (ForexDecisionLifecycle R)
  pub orders : Dict PaperOrder
  pub positions : Dict (PaperPosition R)

module _ {R : Type 0} where
  -- `_record_stage`, `advance` and `reject`
  abbrev pub record_stage :
      ℕ → ForexDecisionStage → Option Text → ForexDecisionLifecycle R → ForexDecisionLifecycle R
  record_stage now stage reason d = record d {
    current_stage = stage;
    stage_history = d.stage_history ++ record { stage = stage; at = now; reason = reason } ∷ [];
  }

  abbrev pub advance :
      ℕ → ForexDecisionStage → Option Text → ForexDecisionLifecycle R → ForexDecisionLifecycle R
  advance now stage reason d = record_stage now stage reason (record d { rejection_reason = none })

  abbrev pub reject : Text → Bool → ForexDecisionLifecycle R → ForexDecisionLifecycle R
  reject reason as_shadow d = record d {
    rejection_reason = some reason;
    final_action = if as_shadow then shadow d.side else turned_down;
  }

  -- `persist_decision`: the row is written, or its action, reason and payload are replaced.
  unfoldable pub persist_decision : ForexDecisionLifecycle R → Repository R → Repository R
  persist_decision d repo = record repo { decisions = insert d.decision_id d repo.decisions }

  abbrev pub is_open_position : PaperPosition R → Bool
  is_open_position p = elim p.status [ is_open ↦ true | is_closed ↦ false ]

  abbrev rows : Dict (PaperPosition R) → List (PaperPosition R)
  rows [] = []
  rows ((id, p) ∷ rest) = p ∷ rows rest

  unfoldable pub load_open_positions : Repository R → List (PaperPosition R)
  load_open_positions repo = select is_open_position (rows repo.positions)

  -- `persist_paper_fill`: nothing on an intent that is there.
  unfoldable pub persist_paper_fill :
      Text → PaperOrder → PaperPosition R → Repository R → Repository R × Bool
  persist_paper_fill intent_id order position repo =
      if is_some (lookup intent_id repo.orders) then (repo, false) else (
        record repo {
          orders = insert intent_id order repo.orders;
          positions = insert position.position_id position repo.positions;
        },
        true,
      )

-- What `persist_paper_close` does; an error, of its own or of the transaction, rolls back.
pub data Closing (R : Type 0) : Type 0 where
  persisted : Repository R → Closing R
  repeated : Closing R
  position_not_found : Closing R
  transaction_error : Closing R

module _ {R : Type 0} ⦃r : Real R⦄ where
  -- The row of the decision, when there is one, gets the payload and loses its reason.
  abbrev pub update_decision :
      Text
      → ForexDecisionLifecycle R
      → Dict (ForexDecisionLifecycle R)
      → Dict (ForexDecisionLifecycle R)
  update_decision id payload decisions =
      if is_some (lookup id decisions)
      then insert id (record payload { rejection_reason = none }) decisions
      else decisions

  unfoldable pub persist_paper_close :
      Bool
      → Text
      → PaperOrder
      → PaperPosition R
      → Text
      → ForexDecisionLifecycle R
      → Repository R
      → Closing R
  persist_paper_close commits intent_id order position decision_id decision repo =
      if not commits
      then transaction_error
      else if is_some (lookup intent_id repo.orders)
      then repeated
      else if is_some (lookup position.position_id repo.positions)
      then persisted (record {
        orders = insert intent_id order repo.orders;
        positions =
            insert position.position_id (record position { quantity = real 0 }) repo.positions;
        decisions = update_decision decision_id decision repo.decisions;
      })
      else position_not_found
