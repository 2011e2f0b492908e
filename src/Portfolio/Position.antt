-- ===== src/Portfolio/Position.antt =====
-- `Position` of backend/portfolio/src/aqros_portfolio/domain/models.py. The type of floats is a
-- parameter: a position only keeps its floats. The percentages for display are not modelled.
use aqros.Shared.{ℕ, String, Bool, true, false, Option, some, if◌then◌else◌}
use aqros.Shared.Int.{ℤ, pos, ◌+ℤ◌, ◌-ℤ◌, ◌*ℤ◌, ltb_ℤ, eqb_ℤ, divide}
use aqros.Shared.Action.{Outcome, done, raised}

pub data PositionStatus : Type 0 where
  pending open_ closed cancelled : PositionStatus

pub data TradeDirection : Type 0 where
  long short : TradeDirection

-- `decimal.DivisionByZero`
pub data PositionError : Type 0 where
  division_by_zero : PositionError

abbrev pub is_open_status : PositionStatus → Bool
is_open_status open_ = true
is_open_status _ = false

module _ (Float : Type 0) where
  pub record Position : Type 0 where
    pub position_id : String
    pub portfolio_id : String
    pub symbol : String
    pub direction : TradeDirection
    pub quantity : ℤ
    pub avg_entry_price : ℤ
    pub current_price : ℤ
    pub stop_loss : Option ℤ
    pub take_profit : Option ℤ
    pub status : PositionStatus
    pub sector : Option String
    pub beta : Float
    pub volatility : Float
    pub avg_daily_volume : Float
    pub realized_pnl : ℤ
    pub fees_paid : ℤ
    pub opened_at : Option ℕ
    pub closed_at : Option ℕ
    pub correlation_id : String

  unfoldable pub market_value : Position → ℤ
  market_value p = p.quantity *ℤ p.current_price

  unfoldable pub entry_value : Position → ℤ
  entry_value p = p.quantity *ℤ p.avg_entry_price

  -- The profit per unit at a price.
  abbrev pub gain : TradeDirection → ℤ → ℤ → ℤ
  gain long entry price = price -ℤ entry
  gain short entry price = entry -ℤ price

  unfoldable pub unrealized_pnl : Position → ℤ
  unrealized_pnl p = gain p.direction p.avg_entry_price p.current_price *ℤ p.quantity

  unfoldable pub total_pnl : Position → ℤ
  unfolding unrealized_pnl
  total_pnl p = p.realized_pnl +ℤ unrealized_pnl p

  unfoldable pub is_open : Position → Bool
  is_open p = is_open_status p.status

  -- `_calculate_realized_pnl_at_quantity`
  unfoldable pub realized_at : ℤ → ℤ → Position → ℤ
  realized_at price qty p = gain p.direction p.avg_entry_price price *ℤ qty

  unfoldable pub close : ℤ → Option ℕ → Position → Position
  close close_price now p = record p {
    realized_pnl = p.realized_pnl +ℤ realized_at close_price p.quantity p;
    current_price = close_price;
    status = closed;
    closed_at = now;
  }

  unfoldable pub update_price : ℤ → Position → Position
  update_price new_price p = record p { current_price = new_price }

  unfoldable pub update_stop_loss : ℤ → Position → Position
  update_stop_loss stop_loss p = record p { stop_loss = some stop_loss }

  unfoldable pub update_take_profit : ℤ → Position → Position
  update_take_profit take_profit p = record p { take_profit = some take_profit }

  abbrev average : ℤ → ℤ → Position → Outcome PositionError Position Position
  average total_cost new_price p =
      if eqb_ℤ p.quantity (pos 0)
      then raised division_by_zero p
      else done
          (record p { avg_entry_price = divide total_cost p.quantity; current_price = new_price })

  unfoldable pub modify_quantity : ℤ → ℤ → Position → Outcome PositionError Position Position
  modify_quantity new_quantity new_price p =
      if eqb_ℤ new_quantity p.quantity
      then done p
      else if ltb_ℤ p.quantity new_quantity
      then average (p.avg_entry_price *ℤ p.quantity +ℤ new_price *ℤ (new_quantity -ℤ p.quantity))
          new_price (record p { quantity = new_quantity })
      else done (record p {
        realized_pnl = p.realized_pnl +ℤ realized_at new_price (p.quantity -ℤ new_quantity) p;
        quantity = new_quantity;
        current_price = new_price;
      })
