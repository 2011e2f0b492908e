-- ===== src/Backtest/Models.antt =====
-- The data of backend/backtesting-engine/src/aqros_backtesting_engine/domain/models.py, and the
-- order intents of libs/aqros-strategy-core/src/aqros_strategy_core/contracts.py. Quantities and
-- prices are integers of units of 10⁻⁸, the quantum to which the code itself rounds, and values are
-- products of the two. A `datetime` is a number of microseconds.
use aqros.Shared.{ℕ, String, Option}
use aqros.Shared.Int.{ℤ}

pub data OrderSide : Type 0 where
  buy sell : OrderSide

pub data OrderType : Type 0 where
  market limit : OrderType

-- The order types of the shared contracts.
pub data IntentType : Type 0 where
  market limit stop stop_limit : IntentType

pub data OrderStatus : Type 0 where
  pending filled partially_filled rejected unfilled : OrderStatus

pub data CorporateActionType : Type 0 where
  split reverse_split cash_dividend stock_dividend : CorporateActionType
  symbol_change merger delisting : CorporateActionType

pub data EventKind : Type 0 where
  corporate_action market_bar order_eligible equity_sample : EventKind

unfoldable pub kind_priority : EventKind → ℕ
kind_priority EventKind.corporate_action = 0
kind_priority EventKind.market_bar = 1
kind_priority EventKind.order_eligible = 2
kind_priority EventKind.equity_sample = 3

pub record Bar : Type 0 where
  pub symbol : String
  pub event_time : ℕ
  pub knowledge_time : ℕ
  pub open_ : ℤ
  pub high : ℤ
  pub low : ℤ
  pub close : ℤ
  pub volume : ℤ

pub record CorporateAction : Type 0 where
  pub symbol : String
  pub action_type : CorporateActionType
  pub event_time : ℕ
  pub knowledge_time : ℕ
  pub ratio : Option ℤ
  pub cash_amount : Option ℤ
  pub successor_symbol : Option String

pub data Payload : Type 0 where
  bar_payload : Bar → Payload
  action_payload : CorporateAction → Payload
  marker : Payload

pub record Event : Type 0 where
  pub event_time : ℕ
  pub knowledge_time : ℕ
  pub kind : EventKind
  pub sequence : ℕ
  pub payload : Payload

pub record OrderIntent : Type 0 where
  pub client_order_id : String
  pub symbol : String
  pub side : OrderSide
  pub order_type : IntentType
  pub quantity : ℤ
  pub limit_price : Option ℤ
  pub emitted_at : ℕ

pub record SimulatedOrder : Type 0 where
  pub client_order_id : String
  pub symbol : String
  pub side : OrderSide
  pub order_type : OrderType
  pub quantity : ℤ
  pub limit_price : Option ℤ
  pub emitted_at : ℕ
  pub eligible_at : ℕ
  pub status : OrderStatus
  pub reject_reason : Option String

pub record Fill : Type 0 where
  pub client_order_id : String
  pub symbol : String
  pub side : OrderSide
  pub quantity : ℤ
  pub price : ℤ
  pub commission : ℤ
  pub filled_at : ℕ

pub record Position : Type 0 where
  pub symbol : String
  pub quantity : ℤ
  pub average_cost : ℤ
  pub realized_pnl : ℤ

pub record CashLedger : Type 0 where
  pub balance : ℤ
  pub starting_cash : ℤ

-- What the trade log gives as the reason: the risk check's text, that the buying power is exceeded,
-- or the description of a corporate action.
pub data LogReason : Type 0 where
  risk : String → LogReason
  buying_power_exceeded action_applied : LogReason

pub record TradeLogEntry : Type 0 where
  pub sequence : ℕ
  pub client_order_id : String
  pub symbol : String
  pub side : OrderSide
  pub order_type : OrderType
  pub quantity : ℤ
  pub price : Option ℤ
  pub commission : ℤ
  pub clock_time : ℕ
  pub outcome : OrderStatus
  pub reason : Option LogReason

pub record EquityPoint : Type 0 where
  pub clock_time : ℕ
  pub total_value : ℤ

-- What ends a run: `LookAheadViolationError`, a `ValueError` for a limit order without a price, a
-- price that is missing, an action without a field that it needs, an order type that the engine
-- does not have, or an event out of order, and a `TypeError` for a payload of the wrong kind.
pub data SimulationError : Type 0 where
  look_ahead no_limit_price no_current_price malformed_action : SimulationError
  unknown_order_type out_of_order wrong_payload : SimulationError
