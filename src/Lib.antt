-- ===== src/Lib.antt =====
-- Verification library of tw_quant, the trading core of this repository: the live order path.
--
-- An order request that a client reserves is stored with a row of an outbox in one transaction. A
-- worker claims rows, calls the broker and records the outcome. An outcome that is not known blocks
-- the row until a reconciliation with the broker resolves it, and a recovery lock keeps orders out
-- until a reconciliation found no issue.
--
-- Base            names, texts, integers and dictionaries that the other modules share; Python's
--                 exceptions as values (`Result`), `Base.Errors`
-- Identity        tw_quant/broker/identity.py: `BrokerAccountRef` is `AccountRef`
-- Order           tw_quant/broker/models.py (`Order.Models`: `BrokerOrderRequest` is `Request`,
--                 `BrokerOrder` is `Order`, a constructor's `__post_init__` is `check_request` and
--                 `make_order`), tw_quant/broker/lifecycle.py (`Order.Lifecycle`)
-- Outbox          tw_quant/broker/repository.py: `Outbox.Store` has the tables of
--                 `SQLiteLiveOrderRepository` and its reads, with tw_quant/broker/routing.py;
--                 `Outbox.Dispatch`, `Outbox.Cancel` and `Outbox.Repair` have its methods under
--                 their names; `Outbox.Listing` has `orders` as `orders_of`, and
--                 `reconciliation_candidates`; `Outbox.Trace` has sequences of calls
-- Manager         tw_quant/broker/manager.py: `Manager.Ports` has the registry of
--                 tw_quant/broker/registry.py and the admission gates, `Manager.Dispatch` and
--                 `Manager.Cancel` the calls of `LiveOrderManager` on the repository and the broker
-- Recovery        tw_quant/broker/recovery.py: `Recovery.Locks` has the methods of
--                 `SQLiteRecoveryLockRepository`
-- Reconciliation  tw_quant/broker/reconciliation.py: `Reconciliation.Snapshot` has the broker's
--                 data, `Reconciliation.Compare` the comparison `_issues`
-- Risk            tw_quant/risk/live.py: `Risk.Live` has `LiveRiskService.evaluate`, with the data of
--                 tw_quant/execution/live_models.py and the quote of tw_quant/market/quotes.py
-- Account         tw_quant/risk/account.py: `Account.State` has the data of `AccountRiskGate`,
--                 `Account.Entries` `on_order`, `Account.Trades` `on_fill` and
--                 `recheck_before_fill`, `Account.Controls` the other methods, with the users of
--                 tw_quant/auth/models.py (`Account.Access`) and tw_quant/futures_costs.py
--                 (`Account.Costs`)
-- Python          the parameter: floating-point numbers and functions into texts
-- Events          tw_quant/events/models.py: `Events.Meta`, `Events.Orders`, `Events.Fills` and
--                 `Events.Market` have the events with the checks of their constructors,
--                 `Events.Models` the union `DomainEvent`; `Events.Engine` has
--                 tw_quant/events/clock.py and the engine of tw_quant/events/engine.py
-- Execution       tw_quant/execution/position_ledger.py: `Execution.Positions` has the data,
--                 `Execution.Ledger` the methods of `PositionLedger`; `Execution.Replay` has an
--                 account of the fills without state, to compare with; `Execution.Router` has
--                 tw_quant/execution/signal_router.py and tw_quant/execution/risk_gates.py,
--                 `Execution.Liquidator` tw_quant/execution/liquidator.py
-- Market          tw_quant/market/sessions.py: `Market.Sessions` has `TradingCalendar` and
--                 `classify_tmf_session`; `Market.Quotes` has tw_quant/market/quotes.py
-- Live            tw_quant/live/rate_limit.py: `Live.RateLimit` has `SlidingWindowRateLimiter`,
--                 whose clock gives floating-point numbers
-- Samples         data for the tests
--
-- State is passed explicitly. A method of a store takes the tables and the values that it reads from
-- the clock, and returns its result or exception with the tables. The tables are those that the one
-- connection of the store sees: each call holds the store's lock, so calls do not interleave, but an
-- exception within a transaction leaves it open, and `BEGIN IMMEDIATE` raises within an open
-- transaction (`in_transaction`). A datetime is a number of microseconds and whether it has a time
-- zone. Prices of broker orders are nan, infinities or integers in a fixed unit, since the modelled
-- code only compares them with 0 and passes them on; the risk limits and the limiter of requests
-- calculate with floating-point numbers, and there these and their operations are a parameter,
-- `Python`, as are the hash, the texts of numbers and datetimes, and the date in Taipei. The times
-- that a table holds are in one time zone, so that their order as texts is that of the instants,
-- and the engine of events compares the exact times of two events where the source sorts by their
-- timestamps as floats, which are in the same order up to the year 2242. `ceil` is of finite
-- numbers, as a clock gives them. The loop of the event engine takes fuel for one round more than
-- its limit of events, the search for a trading day counts the days that are left up to `date.max`;
-- all else is by structural recursion.
--
-- Not modelled: SQL as such, the migration of old tables, locks between threads, what a crash loses
-- of an open transaction, the JSON text of a stored request, the normalisation of account names, the
-- texts of error messages where they contain data, what other tasks do while `dispatch_once` waits for
-- the broker (one call of the manager is one step; the calls of the repository are steps of their
-- own), and every part that is not named above.
pub mod Base
pub mod Identity
pub mod Order
pub mod Outbox
pub mod Recovery
pub mod Reconciliation
mod Samples
pub mod Python
pub mod Risk
pub mod Manager
pub mod Events
pub mod Execution
pub mod Account
pub mod Market
pub mod Live
