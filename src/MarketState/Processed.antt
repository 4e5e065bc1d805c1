-- ===== src/MarketState/Processed.antt =====
-- src/markets/nse/runtime/state.py: which candles give an event.
use delta_quant.Prelude.{
  ℕ, ◌≡◌, refl, sym, ap, ◌∙◌, Bool, true, false, ◌&&◌, ◌||◌, Bool-cases, Option, none, some, inl,
  inr, List, [], ◌∷◌, ◌==◌, ==_iff, if◌then◌else◌, arith, Text,
}
use delta_quant.Prelude.Dict.{Dict, lookup, insert, lookup-insert}
use delta_quant.MarketState.{
  Frame, TimeframeState, SymbolState, new_timeframe, new_symbol, or_new, symbol_of, state_of, put,
  update_quote, set_readiness, is_backfilling, too_short, is_time, observed, observe_settled_frame,
  mark_processed, plan_events, Use, quotes, readies, plans, times, marks, timed, plan_timestamps,
  use_once, use_all,
}

-- The last candle of a symbol and timeframe that was marked, through some uses.
unfoldable pub last_marked : Text → Text → List Use → Option ℕ → Option ℕ
last_marked symbol timeframe [] before = before
last_marked symbol timeframe (quotes s q ∷ us) before = last_marked symbol timeframe us before
last_marked symbol timeframe (readies now s t r ∷ us) before =
    last_marked symbol timeframe us before
last_marked symbol timeframe (plans now n frames ∷ us) before =
    last_marked symbol timeframe us before
last_marked symbol timeframe (times timestamps ∷ us) before = last_marked symbol timeframe us before
last_marked symbol timeframe (marks now event features version ∷ us) before =
    last_marked symbol timeframe us (
      if symbol == event.symbol && timeframe == event.timeframe
      then some event.candle_timestamp
      else before)

abbrev pub processed : Text → Text → Dict SymbolState → Option ℕ
processed symbol timeframe states = (state_of symbol timeframe states).last_processed_settled_candle

abbrev in_timeframe : Text → Option SymbolState → TimeframeState
in_timeframe timeframe o = or_new new_timeframe (lookup timeframe (or_new new_symbol o).timeframes)

if_processed :
    (test : Bool) (a b : TimeframeState)
    → (if test then a else b).last_processed_settled_candle
      ≡ (if test then a.last_processed_settled_candle else b.last_processed_settled_candle)
if_processed true a b = refl
if_processed false a b = refl

same_or :
    (symbol timeframe s t : Text) (states : Dict SymbolState) {kept : Option ℕ}
    → kept ≡ processed s t states
    → (if symbol == s && timeframe == t then kept else processed symbol timeframe states)
      ≡ processed symbol timeframe states
same_or symbol timeframe s t states e = elim (Bool-cases (symbol == s && timeframe == t)) [
  | inr other ↦ rw other refl
  | inl same ↦ rw same (
      e
      ∙ ap (λ a. processed a t states) (ground arith)
      ∙ ap (λ b. processed symbol b states) (ground arith))
]

state_of-put :
    (symbol timeframe s t : Text) (state : TimeframeState) (states : Dict SymbolState)
    → state_of symbol timeframe (put s t state states)
      ≡ (if symbol == s && timeframe == t then state else state_of symbol timeframe states)
state_of-put symbol timeframe s t state states =
    let old = symbol_of s states in
    let new_ : SymbolState = record old { timeframes = insert t state old.timeframes } in
    let found = lookup-insert symbol s new_ states in
    let in_symbol = lookup-insert timeframe t state old.timeframes in
    elim (Bool-cases (symbol == s)) [
      | inr other ↦ ap (λ o. in_timeframe timeframe o) (rw other at found) ∙ rw other refl
      | inl same ↦
          let here : state_of symbol timeframe (put s t state states)
              ≡ or_new new_timeframe (lookup timeframe (insert t state old.timeframes)) =
            ap (λ o. in_timeframe timeframe o) (rw same at found) in
          let moved : state_of s timeframe states ≡ state_of symbol timeframe states =
            ap (λ k. state_of k timeframe states) (sym ((==_iff symbol s).0 same)) in
          elim (Bool-cases (timeframe == t)) [
            | inl at ↦
                here ∙ ap (λ o. or_new new_timeframe o) (rw at at in_symbol) ∙ rw (same, at) refl
            | inr apart ↦
                here
                ∙ ap (λ o. or_new new_timeframe o) (rw apart at in_symbol)
                ∙ moved
                ∙ rw (same, apart) refl
          ]
    ]

processed-put :
    (symbol timeframe s t : Text) (state : TimeframeState) (states : Dict SymbolState)
    → processed symbol timeframe (put s t state states) ≡ (
        if symbol == s && timeframe == t
        then state.last_processed_settled_candle
        else processed symbol timeframe states)
processed-put symbol timeframe s t state states =
    ap (λ (x : TimeframeState). x.last_processed_settled_candle)
      (state_of-put symbol timeframe s t state states)
    ∙ if_processed (symbol == s && timeframe == t) state (state_of symbol timeframe states)

-- A state that keeps its last processed candle changes none.
processed-kept :
    (symbol timeframe s t : Text) (state : TimeframeState) (states : Dict SymbolState)
    → state.last_processed_settled_candle ≡ processed s t states
    → processed symbol timeframe (put s t state states) ≡ processed symbol timeframe states
processed-kept symbol timeframe s t state states kept =
    processed-put symbol timeframe s t state states ∙ same_or symbol timeframe s t states kept

observed-kept :
    (now n : ℕ) (frame : Option Frame) (t : TimeframeState)
    → (observed now n frame t).last_processed_settled_candle ≡ t.last_processed_settled_candle
observed-kept now n none t = ground arith
observed-kept now n (some f) t = ground arith

processed-plan_events :
    (symbol timeframe : Text) (now n : ℕ) (frames : List (Text × Text × Option Frame))
    (states : Dict SymbolState)
    → processed symbol timeframe (plan_events now n frames states).0
      ≡ processed symbol timeframe states
unfolding plan_events observe_settled_frame
processed-plan_events symbol timeframe now n [] states = refl
processed-plan_events symbol timeframe now n ((s, t, frame) ∷ frames) states =
    let state = state_of s t states in
    processed-plan_events symbol timeframe now n frames
      (put s t (observed now n frame state) states)
    ∙ processed-kept symbol timeframe s t (observed now n frame state) states
        (observed-kept now n frame state)

timed-kept :
    (timestamp : Option ℕ) (t : TimeframeState)
    → (timed timestamp t).last_processed_settled_candle ≡ t.last_processed_settled_candle
timed-kept none t = ground arith
timed-kept (some at) t = ground arith

processed-plan_timestamps :
    (symbol timeframe : Text) (timestamps : List (Text × Text × Option ℕ))
    (states : Dict SymbolState)
    → processed symbol timeframe (plan_timestamps timestamps states).0
      ≡ processed symbol timeframe states
unfolding plan_timestamps
processed-plan_timestamps symbol timeframe [] states = refl
processed-plan_timestamps symbol timeframe ((s, t, timestamp) ∷ timestamps) states =
    let state = state_of s t states in
    processed-plan_timestamps symbol timeframe timestamps (put s t (timed timestamp state) states)
    ∙ processed-kept symbol timeframe s t (timed timestamp state) states
        (timed-kept timestamp state)

processed-update_quote :
    (symbol timeframe s quote : Text) (states : Dict SymbolState)
    → processed symbol timeframe (update_quote s quote states) ≡ processed symbol timeframe states
unfolding update_quote
processed-update_quote symbol timeframe s quote states =
    let found =
      lookup-insert symbol s (record (symbol_of s states) { latest_quote = some quote }) states in
    elim (Bool-cases (symbol == s)) [
      | inr other ↦
          ap (λ o. (in_timeframe timeframe o).last_processed_settled_candle) (rw other at found)
      | inl same ↦
          ap (λ o. (in_timeframe timeframe o).last_processed_settled_candle) (rw same at found)
          ∙ ap (λ k. processed k timeframe states) (sym ((==_iff symbol s).0 same))
    ]

-- What was processed last is what was marked last: nothing else moves it.
processed-use_all :
    (symbol timeframe : Text) (us : List Use) (states : Dict SymbolState)
    → processed symbol timeframe (use_all us states)
      ≡ last_marked symbol timeframe us (processed symbol timeframe states)
unfolding use_all use_once last_marked set_readiness mark_processed
processed-use_all symbol timeframe [] states = refl
processed-use_all symbol timeframe (quotes s q ∷ us) states =
    processed-use_all symbol timeframe us (update_quote s q states)
    ∙ ap (last_marked symbol timeframe us) (processed-update_quote symbol timeframe s q states)
processed-use_all symbol timeframe (readies now s t r ∷ us) states =
    processed-use_all symbol timeframe us (set_readiness now s t r states)
    ∙ ap (last_marked symbol timeframe us) (processed-kept symbol timeframe s t _ states refl)
processed-use_all symbol timeframe (plans now n frames ∷ us) states =
    processed-use_all symbol timeframe us (plan_events now n frames states).0
    ∙ ap (last_marked symbol timeframe us)
        (processed-plan_events symbol timeframe now n frames states)
processed-use_all symbol timeframe (times timestamps ∷ us) states =
    processed-use_all symbol timeframe us (plan_timestamps timestamps states).0
    ∙ ap (last_marked symbol timeframe us)
        (processed-plan_timestamps symbol timeframe timestamps states)
processed-use_all symbol timeframe (marks now event features version ∷ us) states =
    processed-use_all symbol timeframe us (mark_processed now event features version states)
    ∙ ap (last_marked symbol timeframe us)
        (processed-put symbol timeframe event.symbol event.timeframe _ states)

plan_timestamps-alone :
    (us : List Use) (symbol timeframe : Text) (at : ℕ)
    → is_backfilling (state_of symbol timeframe (use_all us [])).readiness ≡ false
    → (plan_timestamps ((symbol, timeframe, some at) ∷ []) (use_all us [])).1
      ≡ (if is_time at (last_marked symbol timeframe us none) then [] else (symbol, timeframe) ∷ [])
unfolding plan_timestamps
plan_timestamps-alone us symbol timeframe at idle =
    let marked = processed-use_all symbol timeframe us [] in rw (idle, marked) (ground arith)

-- After any use of a new store, while a timeframe is not backfilling, a frame that is observed for it gives
-- an event exactly when it has enough rows and its last candle is not the one that was last marked as
-- processed, and the plan from the time of that candle alone names the timeframe exactly when the candle is
-- not the one last marked: a candle whose processing failed comes again, and one that was marked does not.
pub observe_settled_frame_marked :
    (us : List Use) (now n : ℕ) (symbol timeframe : Text) (f : Frame)
    → is_backfilling (state_of symbol timeframe (use_all us [])).readiness ≡ false
    → ((observe_settled_frame now n symbol timeframe (some f) (use_all us [])).1 ≡ (
        if too_short n (some f) || is_time f.last_row (last_marked symbol timeframe us none)
        then none
        else some (record {
          symbol = symbol;
          timeframe = timeframe;
          candle_timestamp = f.last_row;
          frame = f;
        })))
      × ((plan_timestamps ((symbol, timeframe, some f.last_row) ∷ []) (use_all us [])).1 ≡ (
          if is_time f.last_row (last_marked symbol timeframe us none)
          then []
          else (symbol, timeframe) ∷ []))
unfolding observe_settled_frame
observe_settled_frame_marked us now n symbol timeframe f idle =
    let marked = processed-use_all symbol timeframe us [] in
    (rw (idle, marked) (ground arith), plan_timestamps-alone us symbol timeframe f.last_row idle)
