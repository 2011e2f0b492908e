-- ===== src/Paper/Tests.antt =====
-- The theorems on the paper trading engine at one market
-- (backend/paper-trading-engine/src/aqros_paper_trading/domain/models.py).
use aqros.Shared.{ℕ, ◌≡◌, ◌⊎◌, refl, Option, none, some, [], ◌∷◌, All, Any, arith}
use aqros.Shared.Int.{ℤ, pos}
use aqros.Shared.Dict.{lookup}
use aqros.Shared.Action.{done, Ensures}
use aqros.Paper.Orders.{OrderSide, OrderType, OrderStatus, SimulatedOrder, accept}
use aqros.Paper.Matching.{CommissionModel, MarketDataSnapshot, MatchingEngine, Fresh, process}
use aqros.Paper.Exchange.{
  SimulatedExchange, get_market, Placed, place_order, process_resting_orders,
}
use aqros.Paper.Pricing.{IsFairFor, process-IsFairFor}
use aqros.Paper.Placing.{IsFilledWhole, Reached, IsPlaced, place_order-IsPlaced, place_order_stop}
use aqros.Paper.Queues.{IsClean}
use aqros.Paper.Crossing.{IsCrossOf, process_resting_orders-IsCrossOf}
use aqros.Paper.Steps.{placed, stay, next, Reach-IsClean}

abbrev matching : MatchingEngine ℕ
matching = record {
  slippage = λ quantity m price. pos 1000000;
  commission = record {
    model = CommissionModel.per_share;
    per_share_rate = pos 500000;
    pct_rate = pos 100000;
    min_commission = pos 10000000000000000;
    max_commission = pos 1000000000000000000;
  };
}

abbrev quote : ℕ → ℕ → MarketDataSnapshot ℕ
quote bid ask = record {
  symbol = "AAPL";
  bid = pos bid;
  ask = pos ask;
  last = pos ask;
  volume = 1000;
  bid_size = 10;
  ask_size = 10;
  timestamp = some 5;
}

abbrev sample_order : OrderSide → OrderType → Option ℤ → Option ℤ → SimulatedOrder
sample_order side order_type price stop_price = record {
  object = 1;
  order_id = "p1";
  client_order_id = "c1";
  portfolio_id = "f1";
  symbol = "AAPL";
  side = side;
  order_type = order_type;
  quantity = pos 1000000000;
  price = price;
  stop_price = stop_price;
  filled_quantity = pos 0;
  filled_value = pos 0;
  total_commission = pos 0;
  status = OrderStatus.pending;
  avg_fill_price = none;
  last_fill_price = none;
  reject_reason = none;
  strategy = "s";
  correlation_id = "";
  created_at = some 3;
  updated_at = some 3;
  fills = [];
}

abbrev limit_buy : SimulatedOrder
limit_buy = sample_order OrderSide.buy OrderType.limit (some (pos 9900000000)) none

abbrev stop_buy : SimulatedOrder
stop_buy = sample_order OrderSide.buy OrderType.stop none (some (pos 20000000000))

abbrev exchange : SimulatedExchange ℕ
exchange = record {
  matching = matching;
  markets = ("AAPL", quote 10000000000 10010000000) ∷ [];
  queue = limit_buy ∷ [];
}

abbrev fresh : Fresh
fresh = record { trade_id = "t1"; object = 2 }

process-IsFairFor_example :
    All
      (IsFairFor (quote 9800000000 9890000000) limit_buy)
      (process matching fresh (quote 9800000000 9890000000) limit_buy []).0
process-IsFairFor_example =
    process-IsFairFor matching fresh (quote 9800000000 9890000000) limit_buy []

abbrev empty_exchange : SimulatedExchange ℕ
empty_exchange = record exchange { queue = [] }

place_order-IsPlaced_example :
    (p : Placed ℕ) × (place_order 7 fresh limit_buy empty_exchange ≡ done p)
    × IsPlaced 7 fresh limit_buy empty_exchange (get_market "AAPL" empty_exchange) p
place_order-IsPlaced_example = place_order-IsPlaced 7 fresh limit_buy empty_exchange refl

-- The stop price is twice the last price.
place_order_stop_example :
    (Reached (quote 10000000000 10010000000) OrderSide.buy (some (pos 20000000000))
      × ((p : Placed ℕ) × (place_order 7 fresh stop_buy empty_exchange ≡ done p)
          × IsFilledWhole p.1))
    ⊎ ((Reached (quote 10000000000 10010000000) OrderSide.buy (some (pos 20000000000)) → ⊥)
        × (place_order 7 fresh stop_buy empty_exchange
            ≡ done ([], accept 7 stop_buy, empty_exchange)))
unfolding get_market lookup
place_order_stop_example =
    place_order_stop 7 fresh stop_buy empty_exchange (quote 10000000000 10010000000) refl refl refl
      (omega arith) tt

process_resting_orders-IsCrossOf_example :
    Ensures
      (λ r. All (λ f. Any (IsCrossOf "AAPL" f) exchange.queue) r.0)
      (process_resting_orders 9 (λ n. "t2") (quote 9800000000 9890000000) exchange)
process_resting_orders-IsCrossOf_example =
    process_resting_orders-IsCrossOf 9 (λ n. "t2") (quote 9800000000 9890000000) exchange
      (λ q. ground arith) (λ q. ground arith)

abbrev rested : (p : Placed ℕ) × (place_order 7 fresh limit_buy empty_exchange ≡ done p)
rested =
    let (p, returned, placing) = place_order-IsPlaced 7 fresh limit_buy empty_exchange refl in
    (p, returned)

Reach-IsClean_example : IsClean rested.0.2.queue
Reach-IsClean_example =
    Reach-IsClean empty_exchange rested.0.2
      (next _ _ _ (placed 7 fresh limit_buy rested.0 empty_exchange _ refl tt rested.1 refl)
        (stay _))
      (tt, tt)
