-- ===== src/Backtest/Fills.antt =====
-- The models that a run is put together from: latency, slippage, commission and liquidity, behind one
-- interface, and the template `FillModel.fill` (domain/fills.py, domain/slippage.py,
-- domain/commission.py and domain/latency.py of
-- backend/backtesting-engine/src/aqros_backtesting_engine). The random source is a state that is
-- passed on. Rates are in units of 10⁻⁸, basis points too.
use aqros.Shared.{ℕ, ◌+◌, Bool, Option, none, some, ltb, if◌then◌else◌}
use aqros.Shared.Int.{min_ℤ, scaled, ℤ, pos, ◌+ℤ◌, ◌-ℤ◌, ◌*ℤ◌, leb_ℤ, divide}
use aqros.Shared.Action.{done, ◌>>=◌}
use aqros.Backtest.Models.{
  OrderSide, buy, sell, OrderType, market, limit, Bar, SimulatedOrder, Fill, no_limit_price,
}
use aqros.Backtest.Accounts.{Attempt, fail}
use aqros.Backtest.Actions.{assert_knowable}

-- The abstract methods `eligible_time`, `adjust`, `cost` and `_max_fillable_quantity`.
pub record Models (Rng : Type 0) : Type 0 where
  pub eligible_time : ℕ → Rng → ℕ × Rng
  pub adjust : ℤ → OrderSide → Rng → ℤ × Rng
  pub cost : ℤ → ℤ → ℤ
  pub max_fillable_quantity : SimulatedOrder → Bar → ℤ

-- `if lower is satisfied then the limit price`
abbrev if_met : Bool → ℤ → Option ℤ
if_met met price = if met then some price else none

abbrev pub limit_reference : OrderSide → ℤ → Bar → Option ℤ
limit_reference buy price bar = if_met (leb_ℤ bar.low price) price
limit_reference sell price bar = if_met (leb_ℤ price bar.high) price

abbrev pub reference_by : OrderType → Option ℤ → OrderSide → Bar → Attempt (Option ℤ)
reference_by market price side bar = done (some bar.open_)
reference_by limit none side bar = fail no_limit_price
reference_by limit (some price) side bar = done (limit_reference side price bar)

unfoldable pub reference_price : SimulatedOrder → Bar → Attempt (Option ℤ)
reference_price order bar = reference_by order.order_type order.limit_price order.side bar

module _ {Rng : Type 0} (models : Models Rng) where
  -- The fill of the quantity at the price.
  abbrev pub filled_order : ℕ → SimulatedOrder → ℤ → ℤ × Rng → Option Fill × Rng
  filled_order clock order quantity (price, rng) = (
    some (record {
      client_order_id = order.client_order_id;
      symbol = order.symbol;
      side = order.side;
      quantity = quantity;
      price = price;
      commission = models.cost quantity price;
      filled_at = clock;
    }),
    rng,
  )

  abbrev pub fill_at : ℕ → SimulatedOrder → Bar → Rng → Option ℤ → Option Fill × Rng
  fill_at clock order bar rng none = (none, rng)
  fill_at clock order bar rng (some reference) =
      let max_quantity = models.max_fillable_quantity order bar in
      if leb_ℤ max_quantity (pos 0)
      then (none, rng)
      else filled_order clock order (min_ℤ order.quantity max_quantity)
          (models.adjust reference order.side rng)

  -- The rest of `fill` once the bar is known.
  abbrev pub fill_known : SimulatedOrder → Bar → ℕ → Rng → Attempt (Option Fill × Rng)
  fill_known order bar clock rng =
      if ltb clock order.eligible_at
      then done (none, rng)
      else (reference_price order bar >>= λ r. done (fill_at clock order bar rng r))

  unfoldable pub fill : SimulatedOrder → Bar → ℕ → Rng → Attempt (Option Fill × Rng)
  fill order bar clock rng =
      assert_knowable bar.knowledge_time clock >>= λ _. fill_known order bar clock rng

module _ {Rng : Type 0} where
  abbrev pub zero_latency : ℕ → Rng → ℕ × Rng
  zero_latency emitted_at rng = (emitted_at, rng)

  abbrev pub fixed_latency : ℕ → ℕ → Rng → ℕ × Rng
  fixed_latency delay emitted_at rng = (emitted_at + delay, rng)

  abbrev pub zero_slippage : ℤ → OrderSide → Rng → ℤ × Rng
  zero_slippage reference side rng = (reference, rng)

  -- `FixedBpsSlippage.adjust`
  abbrev pub fixed_bps_slippage : ℤ → ℤ → OrderSide → Rng → ℤ × Rng
  fixed_bps_slippage basis_points reference buy rng =
      (reference +ℤ divide (reference *ℤ basis_points) (pos 1000000000000), rng)
  fixed_bps_slippage basis_points reference sell rng =
      (reference -ℤ divide (reference *ℤ basis_points) (pos 1000000000000), rng)

abbrev pub zero_commission : ℤ → ℤ → ℤ
zero_commission quantity price = pos 0

abbrev pub per_share_commission : ℤ → ℤ → ℤ → ℤ
per_share_commission per_share quantity price = quantity *ℤ per_share

abbrev pub pct_notional_commission : ℤ → ℤ → ℤ → ℤ
pct_notional_commission pct quantity price = scaled (quantity *ℤ price) pct

-- `ImmediateFillModel._max_fillable_quantity`
abbrev pub immediate : SimulatedOrder → Bar → ℤ
immediate order bar = order.quantity

-- `LiquidityCappedFillModel._max_fillable_quantity`
abbrev pub liquidity_capped : ℤ → SimulatedOrder → Bar → ℤ
liquidity_capped max_participation_rate order bar = scaled bar.volume max_participation_rate
