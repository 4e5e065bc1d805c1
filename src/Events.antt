-- ===== src/Events.antt =====
-- src/core/utils/events.py: the event bus. A handler is known by its identity; what it does depends on
-- the event and on the calls made before it, and the model keeps those calls. Handlers change no
-- subscription. The formatted topic and `to_dict` are left out.
pub mod History
pub mod Delivery
mod Samples
use delta_quant.Prelude.{
  ℕ, zero, suc, ◌-◌, Bool, true, false, Option, none, some, List, [], ◌∷◌, ◌++◌, length, ltb, ◌==◌,
  if◌then◌else◌, select, Text,
}
use delta_quant.Prelude.Dict.{Dict, lookup, insert}
use mathlib.Core.List.{reverse}

pub data EventType : Type 0 where
  quote_update candle_settled indicator_update signal_generated : EventType
  regime_classified strategy_selected signal_validated signal_rejected : EventType
  trade_approved trade_rejected : EventType
  order_placed order_filled order_rejected position_opened position_closed : EventType
  cycle_started cycle_completed error_occurred kill_switch_triggered : EventType
  lesson_learned lesson_applied : EventType

-- The place of a member, by which members are told apart.
abbrev pub code : EventType → ℕ
code quote_update = 0
code candle_settled = 1
code indicator_update = 2
code signal_generated = 3
code regime_classified = 4
code strategy_selected = 5
code signal_validated = 6
code signal_rejected = 7
code trade_approved = 8
code trade_rejected = 9
code order_placed = 10
code order_filled = 11
code order_rejected = 12
code position_opened = 13
code position_closed = 14
code cycle_started = 15
code cycle_completed = 16
code error_occurred = 17
code kill_switch_triggered = 18
code lesson_learned = 19
code lesson_applied = 20

-- `payload` stands for the dict of the event.
pub record TradingEvent : Type 0 where
  pub event_type : EventType
  pub payload : Text
  pub timestamp : ℕ
  pub source : Text
  pub correlation_id : Text
  pub market : Text
  pub provider : Text
  pub runtime_id : Text

pub record EventBus : Type 0 where
  pub async_handlers : Dict (List Text)
  pub sync_handlers : Dict (List Text)
  pub history : List TradingEvent
  pub max_history : ℕ

-- One call of a handler, and whether it raised (which is logged).
pub record Call : Type 0 where
  pub handler : Text
  pub event : TradingEvent
  pub raised : Bool

unfoldable pub new_bus : ℕ → EventBus
new_bus max_history = record {
  async_handlers = [];
  sync_handlers = [];
  history = [];
  max_history = max_history;
}

abbrev pub drop {ℓ} : {A : Type ℓ} → ℕ → List A → List A
drop zero xs = xs
drop (suc n) [] = []
drop (suc n) (x ∷ xs) = drop n xs

-- `xs[-n:]`; `xs[-0:]` is the whole list.
abbrev pub slice_last {ℓ} : {A : Type ℓ} → ℕ → List A → List A
slice_last zero xs = xs
slice_last (suc n) xs = drop (length xs - suc n) xs

-- `d.get(event_type, [])`
abbrev pub or_empty : Option (List Text) → List Text
or_empty none = []
or_empty (some handlers) = handlers

abbrev pub listeners : ℕ → Dict (List Text) → List Text
listeners key d = or_empty (lookup key d)

-- `handlers.remove(handler)`, where a missing handler is passed over.
abbrev pub remove : Text → List Text → List Text
remove handler [] = []
remove handler (x ∷ xs) = if handler == x then xs else x ∷ remove handler xs

abbrev pub add_listener : ℕ → Text → Dict (List Text) → Dict (List Text)
add_listener key handler d = insert key (listeners key d ++ handler ∷ []) d

abbrev pub remove_from : Option (List Text) → ℕ → Text → Dict (List Text) → Dict (List Text)
remove_from none key handler d = d
remove_from (some handlers) key handler d = insert key (remove handler handlers) d

abbrev pub remove_listener : ℕ → Text → Dict (List Text) → Dict (List Text)
remove_listener key handler d = remove_from (lookup key d) key handler d

-- The trimming under the lock of `publish`.
unfoldable pub remember : TradingEvent → EventBus → EventBus
remember event bus =
    let events = bus.history ++ event ∷ [] in
    record bus {
      history =
          if ltb bus.max_history (length events) then slice_last bus.max_history events else events;
    }

unfoldable pub get_history : Option EventType → ℕ → EventBus → List TradingEvent
get_history none limit bus = reverse (slice_last limit bus.history)
get_history (some event_type) limit bus =
    reverse (slice_last limit (select (λ e. code e.event_type == code event_type) bus.history))

unfoldable pub clear_history : EventBus → EventBus
clear_history bus = record bus { history = [] }

-- A use of the bus.
pub data Use : Type 0 where
  subscribes unsubscribes : EventType → Text → Use
  publishes publishes_sync : TradingEvent → Use
  clears : Use

-- `asyncio.iscoroutinefunction`, and whether a handler raises.
module _ (is_async : Text → Bool) (raises : Text → TradingEvent → List Call → Bool) where
  unfoldable pub subscribe : EventType → Text → EventBus → EventBus
  subscribe event_type handler bus =
      if is_async handler
      then record bus { async_handlers = add_listener (code event_type) handler bus.async_handlers }
      else record bus { sync_handlers = add_listener (code event_type) handler bus.sync_handlers }

  unfoldable pub unsubscribe : EventType → Text → EventBus → EventBus
  unsubscribe event_type handler bus =
      if is_async handler
      then record bus {
        async_handlers = remove_listener (code event_type) handler bus.async_handlers;
      }
      else record bus {
        sync_handlers = remove_listener (code event_type) handler bus.sync_handlers;
      }

  -- The calls of some handlers, each one guarded by its own `except`.
  unfoldable pub deliver : List Text → TradingEvent → List Call → List Call
  deliver [] event calls = calls
  deliver (handler ∷ handlers) event calls = deliver handlers event (
      calls
      ++ record { handler = handler; event = event; raised = raises handler event calls } ∷ [])

  -- The handlers of the event's type: the sync ones in their order, then the coroutines, whose results
  -- `gather` returns in their order, exceptions among them.
  unfoldable pub publish : TradingEvent → EventBus × List Call → EventBus × List Call
  publish event (bus, calls) =
      let key = code event.event_type in
      (
        remember event bus,
        deliver (listeners key bus.async_handlers) event
            (deliver (listeners key bus.sync_handlers) event calls),
      )

  unfoldable pub publish_sync : TradingEvent → EventBus × List Call → EventBus × List Call
  publish_sync event (bus, calls) = (
    remember event bus,
    deliver (listeners (code event.event_type) bus.sync_handlers) event calls,
  )

  unfoldable pub use_once : Use → EventBus × List Call → EventBus × List Call
  use_once (subscribes event_type handler) (bus, calls) = (subscribe event_type handler bus, calls)
  use_once (unsubscribes event_type handler) (bus, calls) =
      (unsubscribe event_type handler bus, calls)
  use_once (publishes event) s = publish event s
  use_once (publishes_sync event) s = publish_sync event s
  use_once clears (bus, calls) = (clear_history bus, calls)

  unfoldable pub use_all : List Use → EventBus × List Call → EventBus × List Call
  use_all [] s = s
  use_all (u ∷ us) s = use_all us (use_once u s)
