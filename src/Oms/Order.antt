-- ===== src/Oms/Order.antt =====
-- The data of backend/oms/src/aqros_oms/domain/models.py: enumerations, `Fill` and `Order`.
-- A `Decimal` is an integer number of quanta: quantities in quanta of quantity, prices in quanta of
-- price, and values (quantity times price) in the product of the two, so that sums, differences and
-- products are exact. A `datetime` is a number of microseconds.
use aqros.Shared.{ℕ, String, Option, List}
use aqros.Shared.Int.{ℤ, ◌-ℤ◌}

pub data OrderSide : Type 0 where
  buy sell : OrderSide

pub data OrderType : Type 0 where
  market limit stop stop_limit : OrderType

pub data OrderStatus : Type 0 where
  pending open_ partially_filled filled cancelled rejected expired : OrderStatus

pub data TimeInForce : Type 0 where
  day gtc ioc fok gtd : TimeInForce

pub data RejectReason : Type 0 where
  invalid_symbol invalid_quantity invalid_price invalid_side invalid_order_type : RejectReason
  invalid_time_in_force duplicate_client_order_id insufficient_cash : RejectReason
  insufficient_position portfolio_not_found instrument_not_tradable : RejectReason
  exceeds_max_order_value exceeds_max_order_quantity market_closed unknown : RejectReason

pub record Fill : Type 0 where
  pub trade_id : String
  pub order_id : String
  pub quantity : ℤ
  pub price : ℤ
  pub commission : ℤ
  pub created_at : Option ℕ

pub record Order : Type 0 where
  pub order_id : String
  pub client_order_id : String
  pub portfolio_id : String
  pub symbol : String
  pub side : OrderSide
  pub order_type : OrderType
  pub quantity : ℤ
  pub price : Option ℤ
  pub stop_price : Option ℤ
  pub time_in_force : TimeInForce
  pub status : OrderStatus
  pub filled_quantity : ℤ
  pub filled_value : ℤ
  pub total_commission : ℤ
  pub avg_fill_price : Option ℤ
  pub last_fill_price : Option ℤ
  pub reject_reason : Option RejectReason
  pub reject_message : Option String
  pub expires_at : Option ℕ
  pub strategy : String
  pub correlation_id : String
  pub created_at : Option ℕ
  pub updated_at : Option ℕ
  pub fills : List Fill

unfoldable pub remaining_quantity : Order → ℤ
remaining_quantity o = o.quantity -ℤ o.filled_quantity
