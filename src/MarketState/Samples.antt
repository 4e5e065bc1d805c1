-- ===== src/MarketState/Samples.antt =====
-- A candle that is observed, not acknowledged, observed again, and then marked.
use delta_quant.Prelude.{ℕ, ◌≡◌, refl, ◌||◌, false, none, some, List, [], ◌∷◌, if◌then◌else◌}
use delta_quant.MarketState.{
  Frame, SettledCandleEvent, ready, Use, quotes, readies, plans, times, marks, plan_timestamps,
  use_once, use_all, observe_settled_frame, plan_events, mark_processed, update_quote,
  set_readiness, is_backfilling, state_of, too_short, is_time,
}
use delta_quant.MarketState.Processed.{last_marked, observe_settled_frame_marked}

abbrev candles : ℕ → Frame
candles last = record { rows = 30; last_row = last; content = 9 }

abbrev event_at : ℕ → SettledCandleEvent
event_at last = record { symbol = 1; timeframe = 15; candle_timestamp = last; frame = candles last }

abbrev day : List Use
day =
    quotes 1 77
    ∷ readies 1 1 15 ready
    ∷ plans 2 26 ((1, 15, some (candles 900)) ∷ (1, 60, none) ∷ [])
    ∷ marks 3 (event_at 900) none 0
    ∷ times ((1, 15, some 1_800) ∷ (1, 60, none) ∷ [])
    ∷ plans 4 26 ((1, 15, some (candles 1_800)) ∷ [])
    ∷ []

day_idle : is_backfilling (state_of 1 15 (use_all day [])).readiness ≡ false
unfolding plan_timestamps use_all use_once update_quote set_readiness plan_events
    observe_settled_frame mark_processed
day_idle = refl

-- The second candle was planned and not marked: it comes again.
observe_settled_frame_marked_example :
    ((observe_settled_frame 5 26 1 15 (some (candles 1_800)) (use_all day [])).1 ≡ (
      if too_short 26 (some (candles 1_800)) || is_time 1_800 (last_marked 1 15 day none)
      then none
      else some (event_at 1_800)))
    × ((plan_timestamps ((1, 15, some 1_800) ∷ []) (use_all day [])).1
        ≡ (if is_time 1_800 (last_marked 1 15 day none) then [] else (1, 15) ∷ []))
observe_settled_frame_marked_example =
    observe_settled_frame_marked day 5 26 1 15 (candles 1_800) day_idle

day_marked : last_marked 1 15 day none ≡ some 900
unfolding last_marked
day_marked = refl
