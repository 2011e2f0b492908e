-- ===== src/Paper/Orders.antt =====
-- Orders and their queue (`SimulatedOrder`, `FillResult` and `OrderQueue` in
-- backend/paper-trading-engine/src/aqros_paper_trading/domain/models.py). Quantities and prices are in
-- units of 10⁻⁸, values in units of 10⁻¹⁶, times in microseconds.
use aqros.Shared.{
  ℕ, String, Bool, true, false, not, ◌&&◌, Option, none, some, List, [], ◌∷◌, ◌++◌, leb, ◌==◌,
  if◌then◌else◌,
}
use aqros.Shared.Int.{ℤ, pos, ◌+ℤ◌, ◌-ℤ◌, ◌*ℤ◌, ltb_ℤ, leb_ℤ, divide}
use aqros.Shared.Text.{str_eq}
use aqros.Shared.Action.{Outcome, done, raised}

pub data OrderSide : Type 0 where
  buy sell : OrderSide

pub data OrderType : Type 0 where
  market limit stop stop_limit : OrderType

pub data OrderStatus : Type 0 where
  pending open_ partially_filled filled cancelled rejected expired : OrderStatus

pub data RejectReason : Type 0 where
  invalid_quantity invalid_price invalid_side invalid_order_type : RejectReason
  symbol_not_found market_closed exceeds_max_order_value unknown : RejectReason

pub record FillResult : Type 0 where
  pub trade_id : String
  pub order_id : String
  pub symbol : String
  pub side : OrderSide
  pub fill_quantity : ℤ
  pub fill_price : ℤ
  pub commission : ℤ
  pub slippage : ℤ
  pub is_partial : Bool

-- `object` is the identity of the Python object: two values of one object are that object at two
-- times.
pub record SimulatedOrder : Type 0 where
  pub object : ℕ
  pub order_id : String
  pub client_order_id : String
  pub portfolio_id : String
  pub symbol : String
  pub side : OrderSide
  pub order_type : OrderType
  pub quantity : ℤ
  pub price : Option ℤ
  pub stop_price : Option ℤ
  pub filled_quantity : ℤ
  pub filled_value : ℤ
  pub total_commission : ℤ
  pub status : OrderStatus
  pub avg_fill_price : Option ℤ
  pub last_fill_price : Option ℤ
  pub reject_reason : Option RejectReason
  pub strategy : String
  pub correlation_id : String
  pub created_at : Option ℕ
  pub updated_at : Option ℕ
  pub fills : List FillResult

-- The two `ValueError`s of `apply_fill`.
pub data FillError : Type 0 where
  completed exceeds_remaining : FillError

unfoldable pub remaining_quantity : SimulatedOrder → ℤ
remaining_quantity o = o.quantity -ℤ o.filled_quantity

abbrev pub is_final : OrderStatus → Bool
is_final OrderStatus.filled = true
is_final OrderStatus.cancelled = true
is_final OrderStatus.rejected = true
is_final OrderStatus.expired = true
is_final _ = false

abbrev pub is_complete : SimulatedOrder → Bool
is_complete o = is_final o.status

abbrev pub accept : ℕ → SimulatedOrder → SimulatedOrder
accept now o = record o { status = OrderStatus.open_; updated_at = some now }

abbrev pub reject : RejectReason → ℕ → SimulatedOrder → SimulatedOrder
reject reason now o = record o {
  status = OrderStatus.rejected;
  reject_reason = some reason;
  updated_at = some now;
}

abbrev pub cancel : ℕ → SimulatedOrder → SimulatedOrder
cancel now o = record o { status = OrderStatus.cancelled; updated_at = some now }

-- The changes of `apply_fill`.
abbrev pub with_result : ℕ → FillResult → SimulatedOrder → SimulatedOrder
with_result now r o =
    let new_filled = o.filled_quantity +ℤ r.fill_quantity in
    let new_value = o.filled_value +ℤ r.fill_quantity *ℤ r.fill_price in
    record o {
      fills = o.fills ++ r ∷ [];
      filled_quantity = new_filled;
      filled_value = new_value;
      total_commission = o.total_commission +ℤ r.commission;
      last_fill_price = some r.fill_price;
      avg_fill_price =
          if ltb_ℤ (pos 0) new_filled then some (divide new_value new_filled) else o.avg_fill_price;
      status =
          if leb_ℤ o.quantity new_filled then OrderStatus.filled else OrderStatus.partially_filled;
      updated_at = some now;
    }

unfoldable pub apply_fill :
    ℕ → FillResult → SimulatedOrder → Outcome FillError SimulatedOrder SimulatedOrder
apply_fill now r o =
    if is_complete o
    then raised completed o
    else if ltb_ℤ o.quantity (o.filled_quantity +ℤ r.fill_quantity)
    then raised exceeds_remaining o
    else done (with_result now r o)

-- `OrderQueue` holds a list of orders.
abbrev pub Queue : Type 0
Queue = List SimulatedOrder

unfoldable pub enqueue : SimulatedOrder → Queue → Queue
enqueue o queue = queue ++ o ∷ []

unfoldable pub remove : String → Queue → Bool × Queue
remove id [] = (false, [])
remove id (o ∷ queue) =
    let (found, rest) = remove id queue in
    if str_eq o.order_id id then (true, queue) else (found, o ∷ rest)

-- The queue once the object has changed, which it shares with the code that changed it.
unfoldable pub written : SimulatedOrder → Queue → Queue
written o [] = []
written o (p ∷ queue) = (if p.object == o.object then o else p) ∷ written o queue

unfoldable pub find : String → Queue → Option SimulatedOrder
find id [] = none
find id (o ∷ queue) = if str_eq o.order_id id then some o else find id queue

abbrev pub same_side : OrderSide → OrderSide → Bool
same_side OrderSide.buy OrderSide.buy = true
same_side OrderSide.sell OrderSide.sell = true
same_side _ _ = false

-- An order that rests on the side can be crossed by the other side at the price.
abbrev pub crosses_at : OrderSide → OrderSide → Option ℤ → ℤ → Bool
crosses_at OrderSide.buy OrderSide.sell (some bound) price = leb_ℤ price bound
crosses_at OrderSide.sell OrderSide.buy (some bound) price = leb_ℤ bound price
crosses_at _ _ _ price = false

abbrev pub is_crossable : String → OrderSide → ℤ → SimulatedOrder → Bool
is_crossable symbol side price o =
    str_eq o.symbol symbol && not (is_complete o) && crosses_at o.side side o.price price

-- `o.created_at or datetime.min`
abbrev pub created : SimulatedOrder → ℕ
created o = elim o.created_at [ none ↦ 0 | some t ↦ t ]

unfoldable pub insert_by_time : SimulatedOrder → Queue → Queue
insert_by_time o [] = o ∷ []
insert_by_time o (p ∷ rest) =
    if leb (created o) (created p) then o ∷ p ∷ rest else p ∷ insert_by_time o rest

-- The crossable orders, sorted by the time of their creation; the sort is stable.
unfoldable pub find_crossable : String → OrderSide → ℤ → Queue → Queue
find_crossable symbol side price [] = []
find_crossable symbol side price (o ∷ queue) =
    let rest = find_crossable symbol side price queue in
    if is_crossable symbol side price o then insert_by_time o rest else rest
