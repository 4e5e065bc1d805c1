-- ===== src/Events/Samples.antt =====
-- A bus with a handler that raises, one that does not and a coroutine.
use delta_quant.Prelude.{ℕ, ◌+◌, ◌≡◌, refl, Bool, none, List, [], ◌∷◌, ◌==◌, arith, Text}
use delta_quant.Events.{
  TradingEvent, EventType, order_filled, signal_generated, Call, Use, subscribes, unsubscribes,
  publishes, publishes_sync, clears, use_all, new_bus, publish, get_history,
}
use delta_quant.Events.History.{get_history-newest, newest, take}
use delta_quant.Events.Delivery.{publish_balance, balance, times_called}

abbrev coroutine : Text → Bool
coroutine handler = handler == 2

abbrev failing : Text → TradingEvent → List Call → Bool
failing handler event calls = handler == 1

abbrev event_of : EventType → ℕ → TradingEvent
event_of event_type at = record {
  event_type = event_type;
  payload = 7;
  timestamp = at;
  source = 1;
  correlation_id = 0;
  market = 1;
  provider = 0;
  runtime_id = 0;
}

abbrev day : List Use
day =
    publishes (event_of signal_generated 1)
    ∷ clears
    ∷ subscribes order_filled 1
    ∷ subscribes order_filled 2
    ∷ subscribes order_filled 3
    ∷ subscribes signal_generated 3
    ∷ unsubscribes order_filled 3
    ∷ subscribes order_filled 3
    ∷ publishes (event_of order_filled 2)
    ∷ publishes_sync (event_of signal_generated 3)
    ∷ publishes (event_of order_filled 4)
    ∷ []

get_history-newest_example :
    get_history none 2 (use_all coroutine failing day (new_bus 2, [])).0 ≡ take 2 (newest day [])
get_history-newest_example = get_history-newest coroutine failing 1 1 day (omega arith)

day_events : take 2 (newest day []) ≡ event_of order_filled 4 ∷ event_of signal_generated 3 ∷ []
unfolding newest
day_events = refl

publish_balance_example :
    times_called 3
      (publish coroutine failing
        (event_of order_filled 9)
        ((use_all coroutine failing day (new_bus 2, [])).0, [])).1
    ≡ times_called 3 [] + balance order_filled 3 day 0
publish_balance_example = publish_balance coroutine failing 2 day (event_of order_filled 9) 3 []

day_balance : balance order_filled 3 day 0 ≡ 1
unfolding balance
day_balance = refl
