-- ===== src/Paper/Exchange.antt =====
-- `SimulatedExchange` (backend/paper-trading-engine/src/aqros_paper_trading/domain/models.py). The queue
-- holds the order objects themselves, so a change of an order is written to its place in the queue. An
-- object is placed once. `now` is the reading of the clock, and `fresh` gives what a call makes anew.
use aqros.Shared.{
  String, Bool, false, Option, none, some, List, [], ◌∷◌, ◌++◌, ℕ, if◌then◌else◌, length,
}
use aqros.Shared.Int.{ℤ, pos, ◌+ℤ◌, ◌-ℤ◌, eqb_ℤ, min_ℤ, max_ℤ}
use aqros.Shared.Dict.{Dict, lookup, insert}
use aqros.Shared.Action.{Outcome, done, ◌>>=◌}
use aqros.Paper.Orders.{
  OrderSide, symbol_not_found, FillError, FillResult, SimulatedOrder, remaining_quantity,
  is_complete, accept, reject, apply_fill, Queue, remove, written, find_crossable,
}
use aqros.Paper.Matching.{MarketDataSnapshot, MatchingEngine, Fresh, commission_of, process}

module _ (Float : Type 0) where
  pub record SimulatedExchange : Type 0 where
    pub matching : MatchingEngine Float
    pub markets : Dict (MarketDataSnapshot Float)
    pub queue : Queue

-- The loop over the results of the matching.
unfoldable pub apply_all :
    ℕ → List FillResult → SimulatedOrder → Outcome FillError SimulatedOrder SimulatedOrder
apply_all now [] order = done order
apply_all now (r ∷ results) order =
    apply_fill now r order >>= λ order'. apply_all now results order'

-- The fills, the order as the call leaves it, and the exchange.
abbrev pub Placed : Type 0 → Type 0
Placed Float = List FillResult × SimulatedOrder × SimulatedExchange Float

-- The fills so far, the orders that they left filled, and the queue.
abbrev pub Crossed : Type 0
Crossed = List FillResult × List SimulatedOrder × Queue

module _ {Float : Type 0} where
  -- The state of a market is kept as its last snapshot, whose fields it has.
  unfoldable pub update_market :
      MarketDataSnapshot Float → SimulatedExchange Float → SimulatedExchange Float
  update_market m x = record x { markets = insert m.symbol m x.markets }

  unfoldable pub get_market : String → SimulatedExchange Float → Option (MarketDataSnapshot Float)
  get_market symbol x = lookup symbol x.markets

  abbrev pub matched :
      ℕ
      → SimulatedOrder
      → SimulatedExchange Float
      → List FillResult × Queue
      → Outcome FillError SimulatedOrder (Placed Float)
  matched now order x (results, queue) = apply_all now results order >>= λ order'.
      done (results, order', record x { queue = written order' queue })

  abbrev pub place_in :
      ℕ
      → Fresh
      → SimulatedOrder
      → SimulatedExchange Float
      → Option (MarketDataSnapshot Float)
      → Outcome FillError SimulatedOrder (Placed Float)
  place_in now fresh order x none = done ([], reject symbol_not_found now order, x)
  place_in now fresh order x (some market) =
      matched now (accept now order) x (process x.matching fresh market (accept now order) x.queue)

  unfoldable pub place_order :
      ℕ
      → Fresh
      → SimulatedOrder
      → SimulatedExchange Float
      → Outcome FillError SimulatedOrder (Placed Float)
  place_order now fresh order x = place_in now fresh order x (get_market order.symbol x)

  unfoldable pub cancel_order : String → SimulatedExchange Float → Bool × SimulatedExchange Float
  cancel_order id x = let (found, queue) = remove id x.queue in (found, record x { queue = queue })

  -- `min(resting.price or Decimal("inf"), ask)` and `max(resting.price or Decimal("0"), bid)`
  abbrev pub crossed_base : OrderSide → Option ℤ → MarketDataSnapshot Float → ℤ
  crossed_base OrderSide.buy none m = m.ask
  crossed_base OrderSide.buy (some p) m = if eqb_ℤ p (pos 0) then m.ask else min_ℤ p m.ask
  crossed_base OrderSide.sell none m = max_ℤ (pos 0) m.bid
  crossed_base OrderSide.sell (some p) m = max_ℤ p m.bid

  abbrev pub touched : OrderSide → MarketDataSnapshot Float → ℤ
  touched OrderSide.buy m = m.ask
  touched OrderSide.sell m = m.bid

  abbrev pub effective : OrderSide → Option ℤ → MarketDataSnapshot Float → ℤ → ℤ
  effective OrderSide.buy price m slippage =
      min_ℤ (crossed_base OrderSide.buy price m +ℤ slippage) m.ask
  effective OrderSide.sell price m slippage =
      max_ℤ (crossed_base OrderSide.sell price m -ℤ slippage) m.bid

  -- The fill of a resting order when the market crosses it: the side is the one that crosses.
  abbrev pub crossing_fill :
      MatchingEngine Float
      → String
      → OrderSide
      → MarketDataSnapshot Float
      → SimulatedOrder
      → FillResult
  crossing_fill engine fresh side m resting =
      let quantity = remaining_quantity resting in
      let slippage = engine.slippage quantity m (touched side m) in
      let price = effective side resting.price m slippage in
      record {
        trade_id = fresh;
        order_id = resting.order_id;
        symbol = m.symbol;
        side = side;
        fill_quantity = quantity;
        fill_price = price;
        commission = commission_of engine.commission quantity price;
        slippage = slippage;
        is_partial = false;
      }

  abbrev pub cross_one :
      MatchingEngine Float
      → ℕ
      → (ℕ → String)
      → OrderSide
      → MarketDataSnapshot Float
      → SimulatedOrder
      → Crossed
      → Outcome FillError SimulatedOrder Crossed
  cross_one engine now fresh side m resting (results, orders, queue) =
      if is_complete resting
      then done (results, orders, queue)
      else (let r = crossing_fill engine (fresh (length results)) side m resting in
          apply_fill now r resting >>= λ resting'. done (
            results ++ r ∷ [],
            orders ++ resting' ∷ [],
            (remove resting.order_id (written resting' queue)).1,
          ))

  -- One of the two loops of `process_resting_orders`.
  unfoldable pub cross_all :
      MatchingEngine Float
      → ℕ
      → (ℕ → String)
      → OrderSide
      → MarketDataSnapshot Float
      → List SimulatedOrder
      → Crossed
      → Outcome FillError SimulatedOrder Crossed
  cross_all engine now fresh side m [] c = done c
  cross_all engine now fresh side m (resting ∷ rest) c =
      cross_one engine now fresh side m resting c >>= λ c'.
      cross_all engine now fresh side m rest c'

  unfoldable pub process_resting_orders :
      ℕ
      → (ℕ → String)
      → MarketDataSnapshot Float
      → SimulatedExchange Float
      → Outcome FillError SimulatedOrder
          (List FillResult × List SimulatedOrder × SimulatedExchange Float)
  process_resting_orders now fresh m x =
      cross_all x.matching now fresh OrderSide.buy m
        (find_crossable m.symbol OrderSide.buy m.ask x.queue) ([], [], x.queue)
      >>= λ c.
          cross_all x.matching now fresh OrderSide.sell m
            (find_crossable m.symbol OrderSide.sell m.bid x.queue) c
          >>= λ d. done (d.0, d.1, record x { queue = d.2 })
