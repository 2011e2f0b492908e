-- ===== src/Oms/Requests.antt =====
-- The request models of backend/oms/src/aqros_oms/api/schemas.py with their range checks, and the
-- texts that the routes of api/routes/orders.py read as enumeration members.
use aqros.Shared.{ℕ, String, Bool, false, Option, none, some, List, [], ◌∷◌, ◌||◌, if◌then◌else◌}
use aqros.Shared.Int.{ℤ, pos, ltb_ℤ, leb_ℤ}
use aqros.Shared.Text.{str_eq}
use aqros.Oms.Order.{
  OrderSide, buy, sell, OrderType, market, limit, stop, stop_limit, TimeInForce, day, gtc, ioc, fok,
  gtd, RejectReason,
}

pub record CreateRequest : Type 0 where
  pub client_order_id : String
  pub portfolio_id : String
  pub symbol : String
  pub side : String
  pub order_type : String
  pub quantity : ℤ
  pub price : Option ℤ
  pub stop_price : Option ℤ
  pub time_in_force : String
  pub expires_at : Option ℕ
  pub strategy : String
  pub correlation_id : String

pub record FillRequest : Type 0 where
  pub trade_id : String
  pub quantity : ℤ
  pub price : ℤ
  pub commission : ℤ

-- `OrderSide(text)`, which raises `ValueError` on any other text.
unfoldable pub parse_side : String → Option OrderSide
parse_side t = if str_eq t "buy" then some buy else if str_eq t "sell" then some sell else none

unfoldable pub parse_type : String → Option OrderType
parse_type t =
    if str_eq t "market"
    then some market
    else if str_eq t "limit"
    then some limit
    else if str_eq t "stop"
    then some stop
    else if str_eq t "stop_limit"
    then some stop_limit
    else none

unfoldable pub parse_tif : String → Option TimeInForce
parse_tif t =
    if str_eq t "day"
    then some day
    else if str_eq t "gtc"
    then some gtc
    else if str_eq t "ioc"
    then some ioc
    else if str_eq t "fok"
    then some fok
    else if str_eq t "gtd"
    then some gtd
    else none

-- `RejectReason(reason)`, with `UNKNOWN` for any other text.
abbrev reasons : List (String × RejectReason)
reasons =
    ("invalid_symbol", RejectReason.invalid_symbol)
    ∷ ("invalid_quantity", RejectReason.invalid_quantity)
    ∷ ("invalid_price", RejectReason.invalid_price)
    ∷ ("invalid_side", RejectReason.invalid_side)
    ∷ ("invalid_order_type", RejectReason.invalid_order_type)
    ∷ ("invalid_time_in_force", RejectReason.invalid_time_in_force)
    ∷ ("duplicate_client_order_id", RejectReason.duplicate_client_order_id)
    ∷ ("insufficient_cash", RejectReason.insufficient_cash)
    ∷ ("insufficient_position", RejectReason.insufficient_position)
    ∷ ("portfolio_not_found", RejectReason.portfolio_not_found)
    ∷ ("instrument_not_tradable", RejectReason.instrument_not_tradable)
    ∷ ("exceeds_max_order_value", RejectReason.exceeds_max_order_value)
    ∷ ("exceeds_max_order_quantity", RejectReason.exceeds_max_order_quantity)
    ∷ ("market_closed", RejectReason.market_closed)
    ∷ []

find_reason : String → List (String × RejectReason) → RejectReason
find_reason t [] = RejectReason.unknown
find_reason t ((name, r) ∷ rs) = if str_eq t name then r else find_reason t rs

unfoldable pub parse_reason : String → RejectReason
unfolding find_reason
parse_reason t = find_reason t reasons

-- The fields `gt=0` and `ge=0` of the request models.
abbrev pub not_positive : Option ℤ → Bool
not_positive none = false
not_positive (some p) = leb_ℤ p (pos 0)

abbrev pub ill_formed : CreateRequest → Bool
ill_formed req = leb_ℤ req.quantity (pos 0) || not_positive req.price || not_positive req.stop_price

abbrev pub ill_formed_fill : FillRequest → Bool
ill_formed_fill req =
    leb_ℤ req.quantity (pos 0) || leb_ℤ req.price (pos 0) || ltb_ℤ req.commission (pos 0)
