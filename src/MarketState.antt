-- ===== src/MarketState.antt =====
-- src/markets/nse/runtime/state.py: the state of each symbol and timeframe, and the events of settled
-- candles. A frame is the number of its rows, the time of its last row and its content; symbols are in
-- upper case already. Predictions and strategy state, which are only stored, are left out.
pub mod Processed
mod Samples
use delta_quant.Prelude.{
  ℕ, ◌+◌, ◌-◌, Bool, true, false, not, ◌&&◌, ◌||◌, Option, none, some, List, [], ◌∷◌, ◌++◌, length,
  ltb, ◌==◌, if◌then◌else◌, Text,
}
use delta_quant.Prelude.Dict.{Dict, lookup, insert}

pub data HistoryReadiness : Type 0 where
  ready backfilling insufficient_data failed stale : HistoryReadiness

pub record Frame : Type 0 where
  pub rows : ℕ
  pub last_row : ℕ
  pub content : Text

pub record TimeframeState : Type 0 where
  pub readiness : HistoryReadiness
  pub latest_settled_candle : Option ℕ
  pub last_processed_settled_candle : Option ℕ
  pub frame : Option Frame
  pub features : Option Text
  pub feature_version : Text
  pub updated_at : Option ℕ

pub record SymbolState : Type 0 where
  pub latest_quote : Option Text
  pub timeframes : Dict TimeframeState

pub record SettledCandleEvent : Type 0 where
  pub symbol : Text
  pub timeframe : Text
  pub candle_timestamp : ℕ
  pub frame : Frame

abbrev pub new_timeframe : TimeframeState
new_timeframe = record {
  readiness = insufficient_data;
  latest_settled_candle = none;
  last_processed_settled_candle = none;
  frame = none;
  features = none;
  feature_version = 0;
  updated_at = none;
}

abbrev pub new_symbol : SymbolState
new_symbol = record { latest_quote = none; timeframes = [] }

abbrev pub or_new {ℓ} : {A : Type ℓ} → A → Option A → A
or_new default none = default
or_new default (some a) = a

-- `_symbol(symbol)` and `timeframes.setdefault(...)`
abbrev pub symbol_of : Text → Dict SymbolState → SymbolState
symbol_of symbol states = or_new new_symbol (lookup symbol states)

abbrev pub state_of : Text → Text → Dict SymbolState → TimeframeState
state_of symbol timeframe states =
    or_new new_timeframe (lookup timeframe (symbol_of symbol states).timeframes)

-- The state of one timeframe is replaced.
abbrev pub put : Text → Text → TimeframeState → Dict SymbolState → Dict SymbolState
put symbol timeframe state states =
    let s = symbol_of symbol states in
    insert symbol (record s { timeframes = insert timeframe state s.timeframes }) states

unfoldable pub update_quote : Text → Text → Dict SymbolState → Dict SymbolState
update_quote symbol quote states =
    insert symbol (record (symbol_of symbol states) { latest_quote = some quote }) states

unfoldable pub set_readiness :
    ℕ → Text → Text → HistoryReadiness → Dict SymbolState → Dict SymbolState
set_readiness now symbol timeframe readiness states =
    put symbol timeframe
      (record (state_of symbol timeframe states) { readiness = readiness; updated_at = some now })
      states

abbrev pub is_backfilling : HistoryReadiness → Bool
is_backfilling ready = false
is_backfilling backfilling = true
is_backfilling insufficient_data = false
is_backfilling failed = false
is_backfilling stale = false

abbrev pub is_failed : HistoryReadiness → Bool
is_failed ready = false
is_failed backfilling = false
is_failed insufficient_data = false
is_failed failed = true
is_failed stale = false

-- No frame, an empty one, or one that is too short.
abbrev pub too_short : ℕ → Option Frame → Bool
too_short minimum_bars none = true
too_short minimum_bars (some f) = f.rows == 0 || ltb f.rows minimum_bars

abbrev pub is_time : ℕ → Option ℕ → Bool
is_time at none = false
is_time at (some processed) = processed == at

-- The state after a frame was observed, and the time of a candle that was not processed last.
abbrev pub observed : ℕ → ℕ → Option Frame → TimeframeState → TimeframeState
observed now minimum_bars none t =
    if is_backfilling t.readiness
    then record t { updated_at = some now }
    else record t { readiness = insufficient_data; updated_at = some now }
observed now minimum_bars (some f) t =
    if is_backfilling t.readiness
    then record t { updated_at = some now }
    else if too_short minimum_bars (some f)
    then record t { readiness = insufficient_data; updated_at = some now }
    else record t {
      readiness = ready;
      latest_settled_candle = some f.last_row;
      frame = some f;
      updated_at = some now;
    }

abbrev pub event_for : ℕ → Text → Text → Option Frame → TimeframeState → Option SettledCandleEvent
event_for minimum_bars symbol timeframe none t = none
event_for minimum_bars symbol timeframe (some f) t =
    if is_backfilling t.readiness || too_short minimum_bars (some f)
    then none
    else if is_time f.last_row t.last_processed_settled_candle
    then none
    else some (record {
      symbol = symbol;
      timeframe = timeframe;
      candle_timestamp = f.last_row;
      frame = f;
    })

unfoldable pub observe_settled_frame :
    ℕ
    → ℕ
    → Text
    → Text
    → Option Frame
    → Dict SymbolState
    → Dict SymbolState × Option SettledCandleEvent
observe_settled_frame now minimum_bars symbol timeframe frame states =
    let t = state_of symbol timeframe states in
    (
      put symbol timeframe (observed now minimum_bars frame t) states,
      event_for minimum_bars symbol timeframe frame t,
    )

unfoldable pub mark_processed :
    ℕ → SettledCandleEvent → Option Text → Text → Dict SymbolState → Dict SymbolState
mark_processed now event features feature_version states =
    put event.symbol event.timeframe
      (record {
        readiness = ready;
        latest_settled_candle = some event.candle_timestamp;
        last_processed_settled_candle = some event.candle_timestamp;
        frame = some event.frame;
        features = features;
        feature_version = feature_version;
        updated_at = some now;
      })
      states

abbrev pub with_event :
    Option SettledCandleEvent → List SettledCandleEvent → List SettledCandleEvent
with_event none events = events
with_event (some event) events = event ∷ events

-- The events of `plan_events`; its counts are left out.
unfoldable pub plan_events :
    ℕ
    → ℕ
    → List (Text × Text × Option Frame)
    → Dict SymbolState
    → Dict SymbolState × List SettledCandleEvent
plan_events now minimum_bars [] states = (states, [])
plan_events now minimum_bars ((symbol, timeframe, frame) ∷ frames) states =
    let (states', event) = observe_settled_frame now minimum_bars symbol timeframe frame states in
    let (states'', events) = plan_events now minimum_bars frames states' in
    (states'', with_event event events)

-- The state after the time of its latest candle was looked up, and whether that candle is to be processed.
abbrev pub timed : Option ℕ → TimeframeState → TimeframeState
timed none t =
    if is_backfilling t.readiness || is_failed t.readiness
    then t
    else record t { readiness = insufficient_data }
timed (some at) t =
    if is_backfilling t.readiness then t else record t { latest_settled_candle = some at }

abbrev pub is_changed : Option ℕ → TimeframeState → Bool
is_changed none t = false
is_changed (some at) t =
    not (is_backfilling t.readiness) && not (is_time at t.last_processed_settled_candle)

abbrev with_grain : Bool → Text → Text → List (Text × Text) → List (Text × Text)
with_grain changed symbol timeframe grains =
    if changed then (symbol, timeframe) ∷ grains else grains

-- `plan_timestamps`; its counts are left out.
unfoldable pub plan_timestamps :
    List (Text × Text × Option ℕ) → Dict SymbolState → Dict SymbolState × List (Text × Text)
plan_timestamps [] states = (states, [])
plan_timestamps ((symbol, timeframe, timestamp) ∷ timestamps) states =
    let t = state_of symbol timeframe states in
    let (states', grains) =
      plan_timestamps timestamps (put symbol timeframe (timed timestamp t) states) in
    (states', with_grain (is_changed timestamp t) symbol timeframe grains)

-- What the code and the scheduler around it do with the store.
pub data Use : Type 0 where
  quotes : Text → Text → Use
  readies : ℕ → Text → Text → HistoryReadiness → Use
  plans : ℕ → ℕ → List (Text × Text × Option Frame) → Use
  times : List (Text × Text × Option ℕ) → Use
  marks : ℕ → SettledCandleEvent → Option Text → Text → Use

unfoldable pub use_once : Use → Dict SymbolState → Dict SymbolState
use_once (quotes symbol quote) states = update_quote symbol quote states
use_once (readies now symbol timeframe r) states = set_readiness now symbol timeframe r states
use_once (plans now minimum_bars frames) states = (plan_events now minimum_bars frames states).0
use_once (times timestamps) states = (plan_timestamps timestamps states).0
use_once (marks now event features version) states =
    mark_processed now event features version states

unfoldable pub use_all : List Use → Dict SymbolState → Dict SymbolState
use_all [] states = states
use_all (u ∷ us) states = use_all us (use_once u states)
