-- ===== src/Paper/Pricing.antt =====
-- The prices of fills (`MatchingEngine` and `process_resting_orders` in
-- backend/paper-trading-engine/src/aqros_paper_trading/domain/models.py).
use aqros.Shared.{◌≡◌, refl, Bool-cases, leb-cases, Option, none, some, inl, inr, All, ◌+◌, arith}
use aqros.Shared.Int.{ℤ, pos_part, neg_part, ◌+ℤ◌, ◌-ℤ◌, ◌≤ℤ◌, min_ℤ, max_ℤ}
use aqros.Paper.Orders.{OrderSide, OrderType, FillResult, SimulatedOrder, remaining_quantity, Queue}
use aqros.Paper.Matching.{
  MarketDataSnapshot, MatchingEngine, Fresh, slipped, is_positive, match_market, match_at,
  match_priced, match_limit, is_triggered, released, match_stop, match_stop_limit, process_as,
  process,
}

-- For the side, the first price is no better than the second.
abbrev pub NoBetter : OrderSide → ℤ → ℤ → Type 0
NoBetter OrderSide.buy price than = than ≤ℤ price
NoBetter OrderSide.sell price than = price ≤ℤ than

-- For the side, the first price is no worse than the second.
abbrev pub NoWorse : OrderSide → ℤ → ℤ → Type 0
NoWorse OrderSide.buy price than = price ≤ℤ than
NoWorse OrderSide.sell price than = than ≤ℤ price

module _ {Float : Type 0} (market : MarketDataSnapshot Float) where
  abbrev pub touch_of : OrderSide → ℤ
  touch_of OrderSide.buy = market.ask
  touch_of OrderSide.sell = market.bid

  abbrev pub WithinLimit : OrderSide → Option ℤ → ℤ → Type 0
  WithinLimit side none price = ⊥
  WithinLimit side (some bound) price =
      NoWorse side price bound × NoWorse side (touch_of side) bound

  -- A market or stop order trades no better than the touch; a limit or stop limit order no worse than
  -- its limit, and only where the touch is no worse than the limit.
  abbrev pub PricedAs : OrderType → OrderSide → Option ℤ → ℤ → Type 0
  PricedAs OrderType.market side bound price = NoBetter side price (touch_of side)
  PricedAs OrderType.stop side bound price = NoBetter side price (touch_of side)
  PricedAs OrderType.limit side bound price = WithinLimit side bound price
  PricedAs OrderType.stop_limit side bound price = WithinLimit side bound price

  abbrev pub IsFairFor : SimulatedOrder → FillResult → Type 0
  IsFairFor o r =
      (r.order_id ≡ o.order_id)
      × (r.side ≡ o.side)
      × PricedAs o.order_type o.side o.price r.fill_price

slipped-NoBetter : (side : OrderSide) (base s : ℤ) → NoBetter side (slipped side base s) base
slipped-NoBetter OrderSide.buy base s = ground arith
slipped-NoBetter OrderSide.sell base s = ground arith

max_ℤ-le : (a b : ℤ) → a ≤ℤ max_ℤ a b
max_ℤ-le a b = ground arith

min_ℤ-le : (a b : ℤ) → min_ℤ a b ≤ℤ a
min_ℤ-le a b = ground arith

module _ {Float : Type 0} (engine : MatchingEngine Float) (fresh : Fresh)
    (market : MarketDataSnapshot Float) where
  -- A fill of the order at a price no better than the touch.
  abbrev Slipped : SimulatedOrder → FillResult → Type 0
  Slipped o r =
      (r.order_id ≡ o.order_id)
      × (r.side ≡ o.side)
      × NoBetter o.side r.fill_price (touch_of market o.side)

  match_market-Slipped : (o : SimulatedOrder) → All (Slipped o) (match_market engine fresh market o)
  unfolding match_market
  match_market-Slipped o =
      let base = touch_of market o.side in
      elim (Bool-cases (is_positive (remaining_quantity o))) [
        | inl t ↦ rw t (
          (
            refl,
            refl,
            slipped-NoBetter o.side base (engine.slippage (remaining_quantity o) market base),
          ),
          tt,
        )
        | inr t ↦ rw t tt
      ]

  at_limit :
      (side : OrderSide) (bound : ℤ) (o : SimulatedOrder) (queue : Queue)
      → All
          (λ r.
            (r.order_id ≡ o.order_id)
            × (r.side ≡ o.side)
            × WithinLimit market side (some bound) r.fill_price)
          (match_at engine fresh market side bound o queue).0
  at_limit OrderSide.buy bound o queue =
      elim (leb-cases (pos_part market.ask + neg_part bound)
        (pos_part bound + neg_part market.ask)) [
          | inl (t, le) ↦ rw t (
            (
              refl,
              refl,
              (
                min_ℤ-le bound
                    (market.ask +ℤ engine.slippage (remaining_quantity o) market market.ask),
                le,
              ),
            ),
            tt,
          )
          | inr (t, gt) ↦ rw t tt
        ]
  at_limit OrderSide.sell bound o queue =
      elim (leb-cases (pos_part bound + neg_part market.bid)
        (pos_part market.bid + neg_part bound)) [
          | inl (t, le) ↦ rw t (
            (
              refl,
              refl,
              (
                max_ℤ-le bound
                    (market.bid -ℤ engine.slippage (remaining_quantity o) market market.bid),
                le,
              ),
            ),
            tt,
          )
          | inr (t, gt) ↦ rw t tt
        ]

  priced_limit :
      (price : Option ℤ) (o : SimulatedOrder) (queue : Queue)
      → All
          (λ r.
            (r.order_id ≡ o.order_id)
            × (r.side ≡ o.side)
            × WithinLimit market o.side price r.fill_price)
          (match_priced engine fresh market price o queue).0
  priced_limit none o queue = tt
  priced_limit (some bound) o queue = elim (Bool-cases (is_positive (remaining_quantity o))) [
    | inl t ↦ rw t (at_limit o.side bound o queue)
    | inr t ↦ rw t tt
  ]

  process_as-IsFairFor :
      (type : OrderType) (o : SimulatedOrder) (queue : Queue)
      → All
          (λ r.
            (r.order_id ≡ o.order_id)
            × (r.side ≡ o.side)
            × PricedAs market type o.side o.price r.fill_price)
          (process_as engine fresh market type o queue).0
  unfolding match_limit match_stop match_stop_limit
  process_as-IsFairFor OrderType.market o queue = match_market-Slipped o
  process_as-IsFairFor OrderType.limit o queue = priced_limit o.price o queue
  process_as-IsFairFor OrderType.stop o queue =
      elim (Bool-cases (is_triggered engine fresh market o.stop_price o.side)) [
        | inl t ↦ rw t (match_market-Slipped (released engine fresh market OrderType.market none o))
        | inr t ↦ rw t tt
      ]
  process_as-IsFairFor OrderType.stop_limit o queue =
      elim (Bool-cases (is_triggered engine fresh market o.stop_price o.side)) [
        | inl t ↦
            rw t
              (priced_limit o.price (released engine fresh market OrderType.limit o.price o) queue)
        | inr t ↦ rw t tt
      ]

  -- Whatever the slippage is, also if it is negative: every fill that the matching engine makes of an
  -- order is for that order and its side; for a market or stop order its price is no better than the
  -- ask (for a buy) or the bid (for a sell), and for a limit or stop limit order it is no worse than
  -- the limit, and is made only when the ask or bid is no worse than the limit.
  pub process-IsFairFor :
      (o : SimulatedOrder) (queue : Queue)
      → All (IsFairFor market o) (process engine fresh market o queue).0
  unfolding process
  process-IsFairFor o queue = process_as-IsFairFor o.order_type o queue
