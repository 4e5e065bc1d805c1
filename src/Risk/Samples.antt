-- ===== src/Risk/Samples.antt =====
-- A cycle of three candidates, in whole units: the second repeats the first's symbol, the third would take
-- one position too many.
use delta_quant.Prelude.{Option, length, All, ℕ, ◌≡◌, refl, true, none, some, List, [], ◌∷◌, arith}
use delta_quant.Prelude.Int.{ℤ, pos, negsuc, ◌+ℤ◌, ◌-ℤ◌, ◌*ℤ◌, int_laws}
use delta_quant.Prelude.Real.{Real, exact-IsOrdered}
use delta_quant.Prelude.Whole.{whole_units, truncated}
use delta_quant.Costs.{buy}
use delta_quant.Risk.{
  FinalPaperOrder, OpenPosition, Limits, evaluate, reserve, release, Candidate, Account, enter,
  enter_all,
}
use delta_quant.Lifecycle.{Trade, opened}
use delta_quant.Risk.Daily.{
  DayOp, entry, exit_pnl, trade, drawdown, get_today, keep_days, IsDayOf, day_of,
  get_today-keep_days,
}
use delta_quant.Risk.Averaging.{
  CappedAveragingPolicy, Visit, IsGrown, average, average_all, evaluate_add, average_all_grows,
}
use delta_quant.Risk.Batch.{IsKept, IsGated, enter_all-IsKept}

instance abbrev whole : Real ℤ
whole = whole_units

abbrev limits : Limits ℤ
limits = record {
  equity = pos 1000;
  entries_today = 1;
  daily_entry_cap = 4;
  max_positions = 2;
  max_position_pct = pos 1;
  max_total_exposure_pct = pos 100;
  risk_per_trade = pos 1;
  max_total_risk = pos 1;
  realized_daily_pnl = pos 0;
  daily_loss_limit = some (pos 50);
  daily_loss_buffer = pos 1;
}

abbrev open_lots : List (OpenPosition ℤ)
open_lots =
    record {
      symbol = 3;
      side = buy;
      quantity = 2;
      entry_price = pos 50;
      current_price = pos 52;
      stop_loss = pos 45;
    }
    ∷ []

abbrev first : FinalPaperOrder ℤ
first = record {
  symbol = 7;
  side = buy;
  quantity = pos 3;
  entry_price = pos 100;
  stop_loss = pos 95;
  target_price = pos 120;
  strategy = 1;
}

-- The first is filled, the second is of a symbol that is then held, the third finds no free slot.
abbrev candidate_of : FinalPaperOrder ℤ → Option (ℕ × ℤ) → Candidate ℤ
candidate_of o fill = record {
  equity = limits.equity;
  realized_daily_pnl = limits.realized_daily_pnl;
  order = o;
  fill = fill;
}

abbrev candidates : List (Candidate ℤ)
candidates =
    candidate_of first (some (3, pos 101))
    ∷ candidate_of (record first { quantity = pos 1 }) (some (1, pos 100))
    ∷ candidate_of (record first { symbol = 8 }) none
    ∷ []

abbrev account : Account ℤ
account = record { positions = open_lots; entries_today = 0; reserved = [] }

account-IsKept : IsKept limits account
account-IsKept = record {
  entries = omega arith;
  slots = omega arith;
  distinct = (refl, tt);
  released = refl;
}

sums_associate : (a b c : ℤ) → a +ℤ (b +ℤ c) ≡ a +ℤ b +ℤ c
sums_associate a b c = omega int_laws

entered_first : length (enter_all limits candidates account).0.positions ≡ 2
unfolding enter_all enter evaluate reserve release ◌+ℤ◌ ◌-ℤ◌ ◌*ℤ◌
entered_first = refl

enter_all-IsKept_example :
    IsKept limits (enter_all limits candidates account).0
    × All IsGated (enter_all limits candidates account).1
enter_all-IsKept_example =
    enter_all-IsKept (exact-IsOrdered truncated) sums_associate limits candidates account
      account-IsKept

-- Two days, with an exit after midnight.
abbrev two_days : List (ℕ × DayOp ℤ)
two_days =
    (20, entry)
    ∷ (20, exit_pnl (pos 5))
    ∷ (20, entry)
    ∷ (21, exit_pnl (pos 7))
    ∷ (21, drawdown (pos 3))
    ∷ (20, trade (pos 1) 21)
    ∷ []

get_today-keep_days_example :
    IsDayOf 20 two_days (day_of 20 []) (get_today 20 (keep_days two_days [])).1
get_today-keep_days_example = get_today-keep_days 20 two_days []

abbrev policy : CappedAveragingPolicy ℤ
policy = record { enabled = true; max_adds = 2; trigger_pct = pos 0; add_fraction = pos 1 }

abbrev as_count : ℤ → ℕ
as_count (pos n) = n
as_count (negsuc n) = 0

abbrev holding : Trade ℤ
holding = record {
  trade_id = 5;
  namespace = 1;
  run_id = 2;
  workflow_id = 3;
  idempotency_key = 77;
  signal_id = 4;
  symbol = 7;
  side = buy;
  strategy = 8;
  timeframe = 9;
  regime = 1;
  status = opened;
  entry_order_id = 40;
  position_id = 5;
  original_quantity = 4;
  remaining_quantity = 4;
  add_count = 0;
  entry_price = pos 100;
  weighted_entry_price = pos 100;
  current_price = pos 100;
  stop_loss = pos 80;
  target_price = pos 130;
  entry_charges = pos 0;
  exit_charges = pos 0;
  cumulative_pnl = pos 0;
  mae = pos 0;
  mfe = pos 0;
  created_at = 0;
  updated_at = 0;
  closed_at = none;
  finalized_at = none;
}

abbrev dip : ℤ → Visit ℤ
dip price = record {
  current = price;
  fill = some (record {
    order_id = 41;
    position_id = 5;
    quantity = 0;
    fill_price = price;
    entry_charges = pos 0;
  });
}

-- The second add is twice as large as the first.
abbrev dips : List (ℕ × Visit ℤ)
dips = (1, dip (pos 90)) ∷ (2, dip (pos 85)) ∷ (3, dip (pos 84)) ∷ []

doubles : (average_all as_count policy dips holding).original_quantity ≡ 16
unfolding average_all average evaluate_add ◌+ℤ◌ ◌-ℤ◌ ◌*ℤ◌
doubles = refl

average_all_grows_example :
    IsGrown as_count policy holding (average_all as_count policy dips holding)
average_all_grows_example = average_all_grows as_count policy dips holding (omega arith)
