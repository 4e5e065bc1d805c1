-- ===== src/Lib.antt =====
-- A verification library for the Python sources of DeltaQuant, a trading system for several markets:
-- strategies propose trades, risk gates admit them, an execution layer fills them (on paper unless
-- live trading is enabled), and an exit manager closes them.
--
-- The parts that are modelled, and the files they come from:
--   Breaker  src/core/utils/circuit_breaker.py: `CircuitBreaker` with `_transition_to`, the property
--            `state` (`poll`), `_record_success`, `_record_failure`, `call` and `call_async`, `reset`,
--            the registry of named breakers and the decorator `with_circuit_breaker`.
--   Cache    src/core/utils/cache.py: `TTLCache` with `_cleanup`, `_evict_if_needed`, `get`, `set`, `delete`
--            and `clear`, `get_cache` and the decorator `cached`.
--   Limiter  src/core/utils/rate_limiter.py: `RateLimiter`, the limiters of the providers and the decorator
--            `rate_limited`.
--   Costs    src/markets/nse/risk/costs.py: `CostModel.fill_price` and `CostModel.charges`.
--   Paper    src/markets/nse/execution/paper_engine.py: `Position`, `Order`, `LocalPaperEngine` with
--            `place_order` and `_open_position`. `Paper.Screen` has the exits of `place_order` before
--            anything is changed, `Paper.Close` the closing loop, `Paper.Place` the opening leg, the
--            persistence of the order and the whole, `Paper.Portfolio` the marking to prices,
--            the reported values and `reset`. The modes of
--            src/markets/nse/execution/runtime_mode.py are in `Paper` too.
--   Exits    src/markets/nse/execution/exit_manager.py: `ManagedPosition`, registration and fills;
--            `Exits.Rules` has the exit rules and the stop movements, `Exits.Cycle` a cycle of
--            `check_exits`.
--   Lifecycle src/markets/nse/execution/lifecycle.py: `PaperTradeLifecycleStore`, the durable ledger of
--            paper trades. `Lifecycle` has the rows and the queries, `Lifecycle.Operations` the
--            operations; an operation that raises is an `err`, and the ledger stays as it was.
--   Startup  the reconciliation at the start, of the same file: `_repair_from_orders` replays the orders of a
--            trade (`Startup`), `reconcile` brings the wallet, the ledger and the exit manager together
--            (`Startup.Reconcile`); what raises ends it with what was committed before.
--   Agreement the exit manager and the ledger: an executed exit goes to both, as in
--            src/markets/nse/runtime/live.py.
--   Service  src/markets/nse/execution/service.py and live_executor.py, the one entry point for orders:
--            `Service.Keys` has the idempotency store, `Service.Broker` the placing and polling of a
--            live order, `Service.Submit` the guards, `submit` and `submit_async`, `Service.Drift` the
--            report on positions that differ from the broker's. The resolution of the mode is that of
--            src/config/settings.py.
--   Risk     src/markets/nse/risk/pretrade.py: `PaperRiskReservations`, the last gate before a paper entry.
--            `Risk.Batch` is about the entries of a cycle of src/markets/nse/runtime/live.py, which reserves,
--            submits and releases one candidate after the other and reads the account again for each,
--            `Risk.Daily` about `DailyRiskStore` of daily_state.py, `Risk.Averaging` about
--            src/markets/nse/execution/averaging.py and the adds that the live loop puts into the ledger.
--   Forex    the paper positions of the forex market: src/markets/forex/runtime/lifecycle.py (the stages of a
--            decision), src/core/persistence.py (`persist_paper_fill`, `persist_paper_close` and the rest) and,
--            in `Forex.Manage`, src/markets/forex/runtime/paper_positions.py. `Forex.Pretrade` has the checks of
--            src/markets/forex/risk/model.py, `Forex.Units` the size of a position and the conversion of
--            currencies. `Forex.Conflicts` has `classify_instrument_conflicts` and `update_candidate_state` of
--            lifecycle.py.
--   Aggregation src/core/aggregation/consolidation.py: `aggregate_strategy_signals` and `consolidate_signals`;
--            `Aggregation.Groups` has the grouping by a key, `Aggregation.Opportunity` the latter.
--   MarketState src/markets/nse/runtime/state.py: `MarketStateStore`, which tells new settled candles from
--            those that were processed.
--   Sizing   src/markets/nse/risk/sizing.py: `PositionSizer` with its methods, and the heat of a portfolio;
--            `Sizing.Guards` has the drawdown and the price band of guards.py.
--   Events   src/core/utils/events.py: `EventBus` with `subscribe`, `unsubscribe`, `publish`, `publish_sync`,
--            `get_history` and `clear_history`.
--   Prelude  the vocabulary they share.
-- The paper engine fills orders at the prices of the cost model, and the exit manager tracks the
-- positions that it opened; the service stands before the engine and the broker; the ledger keeps the
-- identity of each trade, its fills and whether its close has been handed on. The risk gate reads the
-- open positions and its own reservations. The forex conflicts are between the candidates of the
-- aggregation; the forex sizes use the quotes of the forex checks.
--
-- How the model stands to the code. Python's floats are a type with operations (`Real`); theorems about
-- them hold for any such operations, those that need an order take its laws as a hypothesis (`IsOrdered`,
-- `Aggregation.Winner.IsLinear`), those that bound a size by what an amount pays for take that the
-- arithmetic does not round (`Sizing.Caps.IsExact`, which hundredths as whole numbers meet), and those that
-- add up money are about exact whole units or take it that sums may be regrouped. Identifiers are codes
-- that are compared only. Clocks, new ids and the success of the database transactions of the paper engine,
-- of the idempotency store and of the forex exits are inputs; other writes to the database are taken to
-- succeed. Logging, locks and the SQL itself are left out; what the code does after a failed commit that is
-- an input is modelled. Division is total in the model; where the code would divide by an entry price of 0,
-- for a stale trade, the cycle of exits ends with an error (`Exits.Cycle.divides_by_zero`). The closing
-- loop runs on fuel, one round more than there are open positions, and each round fills the order or uses
-- up a position. A retried call and the polling of a broker's order are recursions on the attempts that are
-- left. Hashes, and what a broker, a provider of quotes or a decorated function answers, are inputs.
--
-- Not modelled: strategies, indicators and machine learning, which are floating-point numerics over
-- data frames; the evaluation of the registered strategies; agents and language-model calls; broker and
-- market-data adapters; web and dashboard code; the sessions of the exchanges; loading and saving of
-- configuration and state files.
pub mod Prelude
pub mod Breaker
pub mod Costs
pub mod Paper
pub mod Exits
pub mod Lifecycle
pub mod Agreement
pub mod Service
pub mod Risk
pub mod Forex
pub mod Cache
pub mod Limiter
pub mod Events
pub mod MarketState
pub mod Aggregation
pub mod Sizing
pub mod Startup
