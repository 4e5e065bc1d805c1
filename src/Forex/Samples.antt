-- ===== src/Forex/Samples.antt =====
-- A long position and its stop, in whole units.
use delta_quant.Prelude.{
  Bool, true, Text, ℕ, ◌+◌, ◌≡◌, refl, false, none, some, List, [], ◌∷◌, arith,
}
use delta_quant.Prelude.Dict.{Dict, lookup}
use delta_quant.Prelude.Int.{ℤ, pos}
use delta_quant.Prelude.Real.{Real}
use delta_quant.Prelude.Whole.{whole_units}
use delta_quant.Costs.{buy}
use delta_quant.Forex.{
  ForexDecisionLifecycle, risk_approved, no_action, PaperPosition, Repository, is_open, stop,
  persist_decision, persist_paper_fill, persist_paper_close, load_open_positions,
}
use delta_quant.Forex.Manage.{
  RecordIds, ForexQuote, create_local_paper_position, exit_for_position, closed_position, manage,
  manage_all, manage_position,
}
use delta_quant.Forex.Exits.{manage_exits}
use delta_quant.Forex.Once.{
  Happening, managing, happen, happen_all, create_local_paper_position_once,
}

instance abbrev whole : Real ℤ
whole = whole_units

abbrev ids : RecordIds
ids = record {
  paper_intent = λ a. a;
  paper_order = λ a. a;
  paper_position = λ a. a;
  paper_exit_intent = λ a reason time. 100 + a;
  paper_exit_order = λ a. a;
}

abbrev decision : ForexDecisionLifecycle ℤ
decision = record {
  decision_id = 4;
  candidate_id = 3;
  instrument = 7;
  side = buy;
  stop_price = pos 90;
  target_price = pos 120;
  current_stage = risk_approved;
  rejection_reason = none;
  final_action = no_action;
  order_id = none;
  position_id = none;
  stage_history = [];
}

abbrev holding : PaperPosition ℤ
holding = record {
  position_id = 3;
  decision_id = 4;
  symbol = 7;
  side = buy;
  quantity = pos 10;
  stop_price = pos 90;
  target_price = pos 120;
  status = is_open;
  closed_at = none;
  exit = none;
}

abbrev tables : Repository ℤ
tables = record {
  decisions = (4, decision) ∷ [];
  orders = (3, record { order_id = 3; symbol = 7; side = buy }) ∷ [];
  positions = (3, holding) ∷ [];
}

abbrev falling : ForexQuote ℤ
falling = record { bid = pos 88; ask = pos 89; timestamp = 5 }

abbrev quotes : Dict (ForexQuote ℤ)
quotes = (7, falling) ∷ []

abbrev all_commit : Text → Bool
all_commit id = true

manage_exits_example :
    lookup 3 (manage ids 9 all_commit quotes tables).0.positions
    ≡ some (record (closed_position ids 9 holding stop (pos 88)) { quantity = pos 0 })
manage_exits_example =
    manage_exits ids (λ a b s t m n e. omega arith) 9 all_commit quotes tables holding falling stop
      (λ id. refl) (refl, tt) (refl, refl) refl refl refl refl refl

abbrev empty_tables : Repository ℤ
empty_tables = record { decisions = []; orders = []; positions = [] }

abbrev between : List (ℕ × Happening ℤ)
between = (9, managing all_commit quotes) ∷ []

create_local_paper_position_once_example :
    let before =
      happen_all ids between (create_local_paper_position ids 2 decision (pos 10) empty_tables).0 in
    let (after, created) = create_local_paper_position ids 11 decision (pos 50) before in
    (created ≡ false) × (after.orders ≡ before.orders) × (after.positions ≡ before.positions)
create_local_paper_position_once_example =
    create_local_paper_position_once ids 2 11 decision decision (pos 10) (pos 50) empty_tables
      between refl

-- The first time it is created, and the round closes it.
closed_in_between :
    load_open_positions
      (happen_all ids between (create_local_paper_position ids 2 decision (pos 10) empty_tables).0)
    ≡ []
unfolding load_open_positions happen_all happen create_local_paper_position persist_decision
    persist_paper_fill manage manage_all manage_position exit_for_position persist_paper_close
closed_in_between = refl
