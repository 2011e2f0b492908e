-- ===== src/Lib.antt =====
-- Verification library of AQROS: the order management service, the risk engine, the audit ledger,
-- the portfolio, the authorization service, the model registry, the splits of the dataset builder,
-- the outbox, the backtesting engine and the paper trading engine.
--
-- The order management service (backend/oms) keeps orders and their fills. Its routes read a
-- request, ask the domain object `Order` to change, and save it through the repository. The risk
-- engine (backend/risk-engine) judges the signals of strategies: `RiskPipeline.evaluate` asks a list
-- of rules, which share a circuit breaker, and sizes what no rule rejects. The audit ledger
-- (backend/audit-ledger) appends entries to a hash chain and verifies it. The portfolio service
-- (backend/portfolio) keeps cash and positions. The authorization service (backend/auth) decides who
-- may do what, and keeps the requests that need a second person. The model registry
-- (backend/model-registry) moves versions of models through their states, some only after two persons
-- have approved. The dataset builder (backend/dataset-builder) splits the rows of a dataset into
-- folds and audits them before it stores anything. The outbox (libs/aqros-outbox) keeps the events
-- that a service has still to hand to the event bus, and tries again when the bus refuses. The
-- backtesting engine (backend/backtesting-engine) replays events through a strategy, a risk check and
-- its own fills and accounts. The paper trading engine (backend/paper-trading-engine) matches orders
-- against snapshots of a market and keeps the limit orders that have to wait in a queue. The services
-- call each other over HTTP only, so their models share nothing but the helpers.
--
-- Shared has the helpers: lists, integers over the native numbers (Shared/Int), texts, dictionaries,
-- and `Outcome` (Shared/Action), which is a value or an exception, each with the state that the code
-- leaves behind, so that what a method wrote before it raised is kept.
--
-- Oms models backend/oms/src/aqros_oms:
--   Oms/Order, Oms/Methods        `Order`, `Fill` and their methods in domain/models.py
--   Oms/Validation, Oms/Expiry    `validate_order` and `calculate_order_expiry` in domain/models.py
--   Oms/Repository                `OrderRepository` in adapters/repository.py over two tables
--   Oms/Requests, Oms/Service     the request models of api/schemas.py and api/routes/orders.py
--   Oms/Lifecycle, Oms/Accounting, Oms/Filling   proofs on the methods of an order
--   Oms/Rules, Oms/Consistency, Oms/History, Oms/Creation   proofs on the routes
-- A method is a function from the order to an `Outcome`, a route one from the repository. The
-- reading of the clock, the fresh identifier and `str.upper` are arguments.
--
-- Risk models backend/risk-engine/src/aqros_risk_engine:
--   Risk/Numbers                  what the engine uses of Python's floats, as a parameter
--   Risk/Models, Risk/Drawdown, Risk/Breaker, Risk/Statistics   domain/models.py
--   Risk/Rules                    domain/rules.py
--   Risk/Sizing                   domain/sizing.py
--   Risk/Pipeline, Risk/Pipeline/Settings   domain/pipeline.py; the other child modules have the
--                                 proofs
--
-- Audit models backend/audit-ledger/src/aqros_audit_ledger:
--   Audit/Chain                   domain/chain.py; the digest and the encoders are a parameter
--   Audit/Ledger                  adapters/inmemory.py and domain/service.py
--   Audit/Verification, Audit/Joining, Audit/Evidence, Audit/Growth   proofs
--
-- Portfolio models backend/portfolio/src/aqros_portfolio/domain/models.py:
--   Portfolio/Cash, Portfolio/Position, Portfolio/Account   `CashBalance`, `Position`, `Portfolio`
--   Portfolio/Closing, Portfolio/Resizing   proofs on `close_position` and `modify_quantity`
--
-- Auth models backend/auth/src/aqros_auth:
--   Auth/Policy                   domain/policy.py
--   Auth/Approvals                domain/approvals.py
--   Auth/Desk                     the four-eyes operations of `AuthService` in domain/service.py, over
--                                 the repository of adapters/inmemory.py, which hands out the stored
--                                 object itself
--   Auth/Calls                    sequences of these operations
--   Auth/Decisions, Auth/Trail, Auth/Keeping, Auth/Vouching, Auth/Finality   proofs
-- The payload of a request is never read, so its type is an argument.
--
-- Registry models backend/model-registry/src/aqros_model_registry:
--   Registry/Lifecycle            domain/lifecycle.py and domain/approval.py
--   Registry/Store                the tables of adapters/repository.py, and domain/models.py
--   Registry/Service, Registry/Approving   `ModelRegistryService` in domain/services.py
--   Registry/Calls                sequences of its operations
--   Registry/Gates, Registry/Tables, Registry/Mandates, Registry/Soundness, Registry/Steps,
--   Registry/Promotion, Registry/Stale   proofs
-- What registration pins into a version is never read by these operations, so its type is an
-- argument. A call is one transaction: if it raises, the tables are as they were. The identifier of a
-- request is its place in the table.
--
-- Dataset models backend/dataset-builder/src/aqros_dataset_builder:
--   Dataset/Splits                domain/splitters.py, and the parameters of domain/models.py
--   Dataset/Audit                 `audit_fold_integrity` in domain/validation.py
--   Dataset/Request               the split parameters in api/schemas.py
--   Dataset/Windows, Dataset/Purged, Dataset/Clearance, Dataset/Bounds   proofs
-- Row numbers and sizes are natural numbers, since the API lets no negative size in.
--
-- Outbox models libs/aqros-outbox/src/aqros_outbox:
--   Outbox/Store                  domain.py, and the in-memory repository of repository.py
--   Outbox/Dispatcher             `_dispatch` in dispatcher.py
--   Outbox/Counting               proofs
-- What an event carries is never read, so its type is an argument. Whether the bus takes an event,
-- the clock and the random delay are arguments of each attempt.
--
-- Backtest models backend/backtesting-engine/src/aqros_backtesting_engine/domain:
--   Backtest/Models               models.py, and the order intents of libs/aqros-strategy-core
--   Backtest/Accounts             portfolio.py
--   Backtest/Actions              corporate_actions.py and lookahead.py
--   Backtest/Fills                fills.py, slippage.py, commission.py, latency.py
--   Backtest/Stream               the order of events in events.py
--   Backtest/Engine, Backtest/Engine/State, Backtest/Engine/Orders   `SimulationEngine` in
--                                 simulation.py
--   Backtest/Keeping, Backtest/Conservation, Backtest/Reconciliation with their Runs,
--   Backtest/Fairness, Backtest/Profit, Backtest/Guards   proofs
-- The strategy, which may keep a state, the risk check, and the models of latency, slippage,
-- commission and liquidity are arguments; the models of the source that are exact are given too. A
-- quantity and a price are whole numbers of units of 10⁻⁸, to which the code rounds after a corporate
-- action; the products with a rate, which the code keeps to 28 digits, are rounded there too. The
-- positions are kept in the order of the dict, where the code sorts them at the end.
--
-- Paper models backend/paper-trading-engine/src/aqros_paper_trading/domain/models.py:
--   Paper/Orders                  `SimulatedOrder`, `FillResult` and `OrderQueue`
--   Paper/Matching                `CommissionConfig` and `MatchingEngine`
--   Paper/Exchange                `SimulatedExchange`
--   Paper/Pricing, Paper/Placing, Paper/Queues, Paper/Sweeping, Paper/Resting, Paper/Crossing,
--   Paper/Steps                   proofs
-- The slippage, which the code computes in floats, is an argument, and so are the clock and the
-- identities of new fills and orders. An order carries the identity of its Python object: a call
-- returns the orders that it has changed, and writes them to their places in the queue, since the
-- exchange and its caller share them. An object is placed once. `ExchangeState` is kept as the last
-- snapshot.
--
-- A `Decimal` is an integer number of quanta of its kind (quantity, price, or value, the product of
-- the two), so sums, differences and products are exact; quotients round half to even at the
-- quantum. The limit of 28 significant digits of the decimal context is not modelled. A `datetime`
-- is a number of microseconds, in the risk engine with a mark for its time zone. Floats are no
-- numbers of this development: the risk engine's definitions take their type and operations as
-- an argument, and only the theorem on the largest drawdown asks anything of them, that their
-- comparison is an order. Every loop of the code runs over a list or a range, but for the sliding window of
-- `walk_forward_splits`: it has fuel for two more turns than there are rows, which is enough if the
-- step is positive, as the API demands, and the theorems on it say that it ends.
--
-- Not modelled: message texts, logging, events, the sorted and filtered listings, the database
-- below the repository (each repository method is one transaction; a failure of the database
-- between two of them is not a step here), passwords and tokens, the loop of the outbox dispatcher
-- and its SQL repository, the registration of a model up to the row that it stores, the audits of
-- float values in datasets, the calendar and the statistics of the backtesting engine, the latency,
-- the routes and the storage of the paper trading engine, and all other services (live trading,
-- features, training, inference, market data).
pub mod Shared
pub mod Oms
pub mod Risk
pub mod Audit
pub mod Portfolio
pub mod Auth
pub mod Registry
pub mod Dataset
pub mod Outbox
pub mod Backtest
pub mod Paper
