-- ===== src/Lifecycle/Samples.antt =====
-- A trade through the ledger, in whole units.
use delta_quant.Prelude.{ℕ, ◌≡◌, refl, true, false, some, List, [], ◌∷◌, arith, length}
use delta_quant.Prelude.Int.{ℤ, pos, negsuc, ◌+ℤ◌}
use delta_quant.Prelude.Real.{Real}
use delta_quant.Prelude.Whole.{whole_units}
use delta_quant.Costs.{buy}
use delta_quant.Lifecycle.{
  closed, Trade, Store, ok, Intent, EntryFill, ExitFill, get, commit, with_key,
  get_unfinalized_closed, get_by_status, get_open,
}
use delta_quant.Lifecycle.Operations.{
  create_intent, mark_open, record_add, record_exit, mark_rejected, mark_finalized, intended_trade,
  entered, exited,
}
use delta_quant.Lifecycle.History.{
  IsConsistent, Op, creating, opening, adding, exiting, rejecting, finalizing, run, apply,
}
use delta_quant.Lifecycle.Lives.{mark_finalized_once, AllConsistent, run-AllConsistent}
use delta_quant.Lifecycle.Keys.{create_intent_once}

instance abbrev whole : Real ℤ
whole = whole_units

abbrev plan : Intent ℤ
plan = record {
  trade_id = 5;
  namespace = 1;
  run_id = 2;
  workflow_id = 3;
  idempotency_key = 77;
  signal_id = 4;
  symbol = 7;
  side = buy;
  strategy = 8;
  timeframe = 9;
  regime = 1;
  quantity = 10;
  entry_price = pos 100;
  stop_loss = pos 90;
  target_price = pos 130;
}

abbrev entry : EntryFill ℤ
entry = record {
  order_id = 40;
  position_id = 5;
  quantity = 10;
  fill_price = pos 101;
  entry_charges = pos 1;
}

abbrev exit_of : ℕ → ℤ → ExitFill ℤ
exit_of n pnl = record {
  order_id = 41;
  quantity = n;
  exit_price = pos 110;
  realized_pnl = pnl;
  exit_charges = pos 1;
  reason = 6;
  mae = pos 0;
  mfe = pos 0;
}

abbrev empty_store : Store ℤ
empty_store = record { trades = []; events = [] }

abbrev planned : Store ℤ
planned = run ((1, creating plan) ∷ []) empty_store

abbrev held : Store ℤ
held = run ((1, creating plan) ∷ (2, opening 5 entry) ∷ []) empty_store

abbrev holding : Trade ℤ
holding = entered 2 entry (intended_trade 1 plan)

abbrev ending : List (ℕ × Op ℤ)
ending = (3, exiting 5 (exit_of 10 (pos 80))) ∷ (4, rejecting 6 0) ∷ (5, adding 5 entry) ∷ []

held-holding : get 5 held ≡ some holding
unfolding run apply create_intent mark_open commit with_key
held-holding = refl

planned_once : create_intent 1 plan empty_store ≡ ok (planned, 5)
unfolding run apply create_intent commit with_key
planned_once = refl

-- After the whole exit the trade waits for its finalisation.
waiting :
    let s = run ((1, creating plan) ∷ (2, opening 5 entry) ∷ ending) empty_store in
    (length (get_unfinalized_closed 1 s) ≡ 1)
    × (length (get_open 0 s) ≡ 0)
    × (length (get_by_status closed 1 s) ≡ 1)
unfolding run apply create_intent mark_open record_add record_exit mark_rejected commit with_key
    get_unfinalized_closed get_by_status get_open ◌+ℤ◌
waiting = (refl, refl, refl)

empty_store-AllConsistent : AllConsistent empty_store
empty_store-AllConsistent id t here = absurd (ground arith)

abbrev whole_life : List (ℕ × Op ℤ)
whole_life = (1, creating plan) ∷ (2, opening 5 entry) ∷ ending

abbrev finished : Trade ℤ
finished = exited 3 (exit_of 10 (pos 80)) holding

whole_life-finished : get 5 (run whole_life empty_store) ≡ some finished
unfolding run apply create_intent mark_open record_add record_exit mark_rejected commit with_key
    ◌+ℤ◌
whole_life-finished = refl

run-AllConsistent_example : IsConsistent finished
run-AllConsistent_example =
    run-AllConsistent whole_life empty_store empty_store-AllConsistent 5 finished
      whole_life-finished

abbrev settled_store : Store ℤ
settled_store = run ((6, finalizing 5) ∷ []) held

settled_now : mark_finalized 6 5 held ≡ ok (settled_store, true)
unfolding run apply create_intent mark_open mark_finalized commit with_key
settled_now = refl

mark_finalized_once_example :
    mark_finalized 9 5 (run ending settled_store) ≡ ok (run ending settled_store, false)
mark_finalized_once_example = mark_finalized_once 5 6 9 ending held settled_store settled_now

create_intent_once_example :
    create_intent 9 (record plan { trade_id = 12; quantity = 3 }) (run ending planned)
    ≡ ok (run ending planned, 5)
create_intent_once_example =
    create_intent_once 1 9 plan (record plan { trade_id = 12; quantity = 3 }) ending empty_store
      planned 5 planned_once refl (omega arith)

abbrev two_exits : List (ℕ × ExitFill ℤ)
two_exits = (3, exit_of 4 (pos 30)) ∷ (4, exit_of 6 (negsuc 9)) ∷ []
