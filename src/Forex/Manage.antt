-- ===== src/Forex/Manage.antt =====
-- src/markets/forex/runtime/paper_positions.py: the opening of a paper position, and a round of exits. The
-- hashes behind `forex_record_id` are given, and the quotes of the provider.
use delta_quant.Prelude.{
  ℕ, ◌+◌, Bool, true, false, ◌&&◌, ◌||◌, Option, none, some, List, [], ◌∷◌, ◌==◌, if◌then◌else◌,
  Text,
}
use delta_quant.Prelude.Dict.{Dict, lookup}
use delta_quant.Prelude.Real.{Real, real, ◌≺◌, ◌≼◌}
use delta_quant.Costs.{buy, sell}
use delta_quant.Paper.{opposite}
use delta_quant.Forex.{
  ForexDecisionLifecycle, final_paper_decision, paper_order_created, position_open, position_closed,
  paper, PaperPosition, Repository, is_open, is_closed, ExitReason, stop, target, Closing,
  persisted, repeated, position_not_found, transaction_error, record_stage, advance,
  persist_decision, load_open_positions, persist_paper_fill, persist_paper_close,
}

-- `forex_record_id`, by its first argument.
pub record RecordIds : Type 0 where
  pub paper_intent : Text → Text
  pub paper_order : Text → Text
  pub paper_position : Text → Text
  pub paper_exit_intent : Text → ExitReason → ℕ → Text
  pub paper_exit_order : Text → Text

-- The texts of the stages' reasons.
abbrev pub risk_approved_reason : Text
risk_approved_reason = 1

abbrev pub order_persisted : Text
order_persisted = 2

abbrev pub fill_confirmed : Text
fill_confirmed = 3

abbrev pub duplicate_intent : Text
duplicate_intent = 4

abbrev pub exit_filled : ExitReason → Text
exit_filled stop = 5
exit_filled target = 6

pub record ForexQuote (R : Type 0) : Type 0 where
  pub bid : R
  pub ask : R
  pub timestamp : ℕ

pub record ForexPositionManagementResult : Type 0 where
  pub positions_monitored : ℕ
  pub positions_closed : ℕ
  pub stop_exits : ℕ
  pub target_exits : ℕ
  pub stale_or_missing_quotes : ℕ

abbrev pub count_exit : ExitReason → ForexPositionManagementResult → ForexPositionManagementResult
count_exit stop c = record c {
  positions_closed = c.positions_closed + 1;
  stop_exits = c.stop_exits + 1;
}
count_exit target c = record c {
  positions_closed = c.positions_closed + 1;
  target_exits = c.target_exits + 1;
}

abbrev pub count_missing : ForexPositionManagementResult → ForexPositionManagementResult
count_missing c = record c { stale_or_missing_quotes = c.stale_or_missing_quotes + 1 }

-- The tables and the counts, or the `RuntimeError` with the tables as they are then.
abbrev pub Round : Type 0 → Type 0
Round R = Repository R × ForexPositionManagementResult × Bool

module _ {R : Type 0} (ids : RecordIds) (now : ℕ) where
  -- The decision that is written first.
  abbrev pub final_decision : ForexDecisionLifecycle R → ForexDecisionLifecycle R
  final_decision d =
      let intent_id = ids.paper_intent d.candidate_id in
      advance now final_paper_decision (some risk_approved_reason) (record d {
        order_id = some (ids.paper_order intent_id);
        position_id = some (ids.paper_position intent_id);
        final_action = paper d.side;
      })

  abbrev pub canonical_position : ForexDecisionLifecycle R → R → PaperPosition R
  canonical_position d quantity = record {
    position_id = ids.paper_position (ids.paper_intent d.candidate_id);
    decision_id = d.decision_id;
    symbol = d.instrument;
    side = d.side;
    quantity = quantity;
    stop_price = d.stop_price;
    target_price = d.target_price;
    status = is_open;
    closed_at = none;
    exit = none;
  }

  abbrev pub fill_of : ForexDecisionLifecycle R → R → Repository R → Repository R × Bool
  fill_of d quantity =
      let intent_id = ids.paper_intent d.candidate_id in
      persist_paper_fill intent_id
        (record { order_id = ids.paper_order intent_id; symbol = d.instrument; side = d.side })
        (canonical_position d quantity)

  -- The decision after the fill.
  abbrev pub confirmed : Bool → ForexDecisionLifecycle R → ForexDecisionLifecycle R
  confirmed true d =
      advance now position_open (some fill_confirmed)
        (advance now paper_order_created (some order_persisted) d)
  confirmed false d = record d { rejection_reason = some duplicate_intent }

  unfoldable pub create_local_paper_position :
      ForexDecisionLifecycle R → R → Repository R → Repository R × Bool
  unfolding persist_decision persist_paper_fill
  create_local_paper_position d quantity repo =
      let first = final_decision d in
      let (repo', created) = fill_of d quantity (persist_decision first repo) in
      (persist_decision (confirmed created first) repo', created)

module _ {R : Type 0} ⦃r : Real R⦄ where
  -- `_exit_for_position`
  unfoldable pub exit_for_position : PaperPosition R → ForexQuote R → Option (ExitReason × R)
  exit_for_position p q = elim p.side [
    | buy ↦
        if real 0 ≺ p.stop_price && q.bid ≼ p.stop_price
        then some (stop, q.bid)
        else if real 0 ≺ p.target_price && p.target_price ≼ q.bid
        then some (target, q.bid)
        else none
    | sell ↦
        if real 0 ≺ p.stop_price && p.stop_price ≼ q.ask
        then some (stop, q.ask)
        else if real 0 ≺ p.target_price && q.ask ≼ p.target_price
        then some (target, q.ask)
        else none
  ]

module _ {R : Type 0} ⦃r : Real R⦄ (ids : RecordIds) (now : ℕ) where
  abbrev pub closed_position : PaperPosition R → ExitReason → R → PaperPosition R
  closed_position p reason price = record p {
    status = is_closed;
    closed_at = some now;
    exit = some (reason, price);
  }

module _ {R : Type 0} ⦃r : Real R⦄ (ids : RecordIds) (now : ℕ) (commits : Text → Bool) where
  -- The exit of one position, once its decision is there; `commits` is given for the position's id.
  abbrev pub close_at :
      PaperPosition R
      → ForexQuote R
      → ExitReason
      → R
      → ForexDecisionLifecycle R
      → Repository R
      → Closing R
  close_at p q reason price decision =
      let intent_id = ids.paper_exit_intent p.position_id reason q.timestamp in
      persist_paper_close (commits p.position_id) intent_id
        (record {
          order_id = ids.paper_exit_order intent_id;
          symbol = p.symbol;
          side = opposite p.side;
        })
        (closed_position ids now p reason price) p.decision_id
        (record_stage now position_closed (some (exit_filled reason)) decision)

  abbrev pub after_close :
      Repository R → ForexPositionManagementResult → ExitReason → Closing R → Round R
  after_close repo c reason (persisted repo') = (repo', count_exit reason c, true)
  after_close repo c reason repeated = (repo, c, true)
  after_close repo c reason position_not_found = (repo, c, false)
  after_close repo c reason transaction_error = (repo, c, false)

  -- One position of the round.
  unfoldable pub manage_position :
      Dict (ForexQuote R) → PaperPosition R → Repository R → ForexPositionManagementResult → Round R
  unfolding exit_for_position persist_paper_close
  manage_position quotes p repo c = elim (lookup p.symbol quotes) [
    | none ↦ (repo, count_missing c, true)
    | some q ↦ elim (exit_for_position p q) [
      | none ↦ (repo, c, true)
      | some (reason, price) ↦
          if p.decision_id == 0 || p.position_id == 0
          then (repo, count_missing c, true)
          else elim (lookup p.decision_id repo.decisions) [
            | none ↦ (repo, count_missing c, true)
            | some decision ↦ after_close repo c reason (close_at p q reason price decision repo)
          ]
    ]
  ]

  -- The loop goes on unless an error was raised.
  unfoldable pub manage_all :
      Dict (ForexQuote R)
      → List (PaperPosition R)
      → Repository R
      → ForexPositionManagementResult
      → Round R
  unfolding manage_position
  manage_all quotes [] repo c = (repo, c, true)
  manage_all quotes (p ∷ ps) repo c =
      let (repo', c', going) = manage_position quotes p repo c in
      let rest = manage_all quotes ps repo' c' in if going then rest else (repo', c', false)

  abbrev pub monitored : List (PaperPosition R) → ℕ
  monitored [] = 0
  monitored (p ∷ ps) = 1 + monitored ps

  unfoldable pub manage : Dict (ForexQuote R) → Repository R → Round R
  unfolding manage_all load_open_positions
  manage quotes repo =
      let positions = load_open_positions repo in
      manage_all quotes positions repo (record {
        positions_monitored = monitored positions;
        positions_closed = 0;
        stop_exits = 0;
        target_exits = 0;
        stale_or_missing_quotes = 0;
      })
