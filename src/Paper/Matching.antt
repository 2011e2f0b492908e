-- ===== src/Paper/Matching.antt =====
-- Commissions and the matching engine (`CommissionConfig` and `MatchingEngine` in
-- backend/paper-trading-engine/src/aqros_paper_trading/domain/models.py). The slippage is computed in
-- floats: the result of `SlippageConfig.calculate` for a quantity, a snapshot and a price is a
-- parameter, and so is the type of the float values that a snapshot carries. At most one fill and one
-- new order object are made in a call, so their identities are an argument.
use aqros.Shared.{String, Bool, false, Option, none, some, List, [], ◌∷◌, ℕ, if◌then◌else◌}
use aqros.Shared.Int.{ℤ, pos, ◌+ℤ◌, ◌-ℤ◌, ◌*ℤ◌, ltb_ℤ, leb_ℤ, divide, min_ℤ, max_ℤ}
use aqros.Paper.Orders.{
  OrderSide, OrderType, OrderStatus, FillResult, SimulatedOrder, remaining_quantity, Queue, enqueue,
}

pub data CommissionModel : Type 0 where
  per_share pct fixed tiered other : CommissionModel

pub record CommissionConfig : Type 0 where
  pub model : CommissionModel
  pub per_share_rate : ℤ
  pub pct_rate : ℤ
  pub min_commission : ℤ
  pub max_commission : ℤ

-- The rate for a value below 10,000, below 100,000, and from there on.
abbrev tier_rate : ℤ → ℤ
tier_rate value =
    if ltb_ℤ value (pos 100000000000000000000)
    then pos 100000
    else if ltb_ℤ value (pos 1000000000000000000000)
    then pos 80000
    else pos 50000

-- In units of 10⁻²⁴, as the product of a quantity, a price and a rate.
abbrev raw_commission : CommissionModel → CommissionConfig → ℤ → ℤ → ℤ
raw_commission per_share c quantity price = quantity *ℤ c.per_share_rate *ℤ pos 100000000
raw_commission pct c quantity price = quantity *ℤ price *ℤ c.pct_rate
raw_commission fixed c quantity price = c.min_commission *ℤ pos 100000000
raw_commission tiered c quantity price = quantity *ℤ price *ℤ tier_rate (quantity *ℤ price)
raw_commission other c quantity price = quantity *ℤ price *ℤ c.pct_rate

-- `quantize(Decimal("0.01"))`, from units of 10⁻²⁴ to units of 10⁻¹⁶.
abbrev to_cents : ℤ → ℤ
to_cents value = divide value (pos 10000000000000000000000) *ℤ pos 100000000000000

unfoldable pub commission_of : CommissionConfig → ℤ → ℤ → ℤ
commission_of c quantity price = to_cents (
    min_ℤ (max_ℤ (raw_commission c.model c quantity price) (c.min_commission *ℤ pos 100000000))
      (c.max_commission *ℤ pos 100000000))

-- The identifier of the fill, and the object of the order that a call may make.
pub record Fresh : Type 0 where
  pub trade_id : String
  pub object : ℕ

module _ (Float : Type 0) where
  pub record MarketDataSnapshot : Type 0 where
    pub symbol : String
    pub bid : ℤ
    pub ask : ℤ
    pub last : ℤ
    pub volume : Float
    pub bid_size : Float
    pub ask_size : Float
    pub timestamp : Option ℕ

  pub record MatchingEngine : Type 0 where
    pub slippage : ℤ → MarketDataSnapshot → ℤ → ℤ
    pub commission : CommissionConfig

-- The price after slippage, which is never better than the base price and not below 0.0001.
abbrev pub slipped : OrderSide → ℤ → ℤ → ℤ
slipped OrderSide.buy base slippage =
    let price = max_ℤ (base +ℤ slippage) (pos 10000) in if ltb_ℤ price base then base else price
slipped OrderSide.sell base slippage =
    let price = max_ℤ (base -ℤ slippage) (pos 10000) in if ltb_ℤ base price then base else price

abbrev pub is_positive : ℤ → Bool
is_positive q = ltb_ℤ (pos 0) q

module _ {Float : Type 0} (engine : MatchingEngine Float) (fresh : Fresh)
    (market : MarketDataSnapshot Float) where
  abbrev touch : OrderSide → ℤ
  touch OrderSide.buy = market.ask
  touch OrderSide.sell = market.bid

  -- The fill of all that remains, at the price.
  abbrev pub result_at : SimulatedOrder → ℤ → ℤ → List FillResult
  result_at order price slippage =
      let quantity = remaining_quantity order in
      record {
        trade_id = fresh.trade_id;
        order_id = order.order_id;
        symbol = order.symbol;
        side = order.side;
        fill_quantity = quantity;
        fill_price = price;
        commission = commission_of engine.commission quantity price;
        slippage = slippage;
        is_partial = false;
      }
      ∷ []

  unfoldable pub match_market : SimulatedOrder → List FillResult
  match_market order =
      if is_positive (remaining_quantity order)
      then (let base = touch order.side in
          let slippage = engine.slippage (remaining_quantity order) market base in
          result_at order (slipped order.side base slippage) slippage)
      else []

  -- The fill of a limit order that the market reaches, or its place in the queue.
  abbrev pub match_at : OrderSide → ℤ → SimulatedOrder → Queue → List FillResult × Queue
  match_at OrderSide.buy bound order queue =
      let slippage = engine.slippage (remaining_quantity order) market market.ask in
      if leb_ℤ market.ask bound
      then (result_at order (min_ℤ bound (market.ask +ℤ slippage)) slippage, queue)
      else ([], enqueue order queue)
  match_at OrderSide.sell bound order queue =
      let slippage = engine.slippage (remaining_quantity order) market market.bid in
      if leb_ℤ bound market.bid
      then (result_at order (max_ℤ bound (market.bid -ℤ slippage)) slippage, queue)
      else ([], enqueue order queue)

  abbrev pub match_priced : Option ℤ → SimulatedOrder → Queue → List FillResult × Queue
  match_priced none order queue = ([], queue)
  match_priced (some bound) order queue =
      if is_positive (remaining_quantity order)
      then match_at order.side bound order queue
      else ([], queue)

  unfoldable pub match_limit : SimulatedOrder → Queue → List FillResult × Queue
  match_limit order queue = match_priced order.price order queue

  abbrev pub triggered : OrderSide → ℤ → Bool
  triggered OrderSide.buy stop_price = leb_ℤ stop_price market.last
  triggered OrderSide.sell stop_price = leb_ℤ market.last stop_price

  abbrev pub is_triggered : Option ℤ → OrderSide → Bool
  is_triggered none side = false
  is_triggered (some stop_price) side = triggered side stop_price

  -- The order that a stop order turns into: what remains is its quantity, and the filled quantity is
  -- copied too.
  abbrev pub released : OrderType → Option ℤ → SimulatedOrder → SimulatedOrder
  released order_type price order = record {
    object = fresh.object;
    order_id = order.order_id;
    client_order_id = order.client_order_id;
    portfolio_id = order.portfolio_id;
    symbol = order.symbol;
    side = order.side;
    order_type = order_type;
    quantity = remaining_quantity order;
    price = price;
    stop_price = none;
    filled_quantity = order.filled_quantity;
    filled_value = pos 0;
    total_commission = pos 0;
    status = OrderStatus.pending;
    avg_fill_price = none;
    last_fill_price = none;
    reject_reason = none;
    strategy = order.strategy;
    correlation_id = order.correlation_id;
    created_at = none;
    updated_at = none;
    fills = [];
  }

  unfoldable pub match_stop : SimulatedOrder → List FillResult
  match_stop order =
      if is_triggered order.stop_price order.side
      then match_market (released OrderType.market none order)
      else []

  unfoldable pub match_stop_limit : SimulatedOrder → Queue → List FillResult × Queue
  match_stop_limit order queue =
      if is_triggered order.stop_price order.side
      then match_limit (released OrderType.limit order.price order) queue
      else ([], queue)

  abbrev pub process_as : OrderType → SimulatedOrder → Queue → List FillResult × Queue
  process_as OrderType.market order queue = (match_market order, queue)
  process_as OrderType.limit order queue = match_limit order queue
  process_as OrderType.stop order queue = (match_stop order, queue)
  process_as OrderType.stop_limit order queue = match_stop_limit order queue

  unfoldable pub process : SimulatedOrder → Queue → List FillResult × Queue
  process order queue = process_as order.order_type order queue
