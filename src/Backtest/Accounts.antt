-- ===== src/Backtest/Accounts.antt =====
-- Positions, cash and buying power
-- (backend/backtesting-engine/src/aqros_backtesting_engine/domain/portfolio.py). The sums go over the
-- positions in the order of the dict, where the code sorts them by symbol: sums of integers do not
-- depend on the order, and which of several missing prices is named in the error is not modelled.
use aqros.Shared.{String, Bool, false, ◌&&◌, ◌||◌, Option, none, some, [], ◌∷◌, if◌then◌else◌}
use aqros.Shared.Int.{
  min_ℤ, magnitude, scaled, ℤ, pos, negsuc, ◌+ℤ◌, ◌-ℤ◌, ◌*ℤ◌, ltb_ℤ, eqb_ℤ, divide,
}
use aqros.Shared.Dict.{Dict, lookup}
use aqros.Shared.Action.{Outcome, done, raised, ◌>>=◌}
use aqros.Backtest.Models.{
  OrderSide, buy, sell, Fill, Position, CashLedger, SimulationError, no_current_price,
}

-- A call that returns or ends the run.
abbrev pub Attempt : Type 0 → Type 0
Attempt A = Outcome SimulationError (Unit {0}) A

abbrev pub fail : {A : Type 0} → SimulationError → Attempt A
fail e = raised e tt

abbrev pub same_sign : ℤ → ℤ → Bool
same_sign a b = (ltb_ℤ (pos 0) a && ltb_ℤ (pos 0) b) || (ltb_ℤ a (pos 0) && ltb_ℤ b (pos 0))

abbrev pub signed : OrderSide → ℤ → ℤ
signed buy q = q
signed sell q = pos 0 -ℤ q

abbrev flat : String → Position
flat symbol = record {
  symbol = symbol;
  quantity = pos 0;
  average_cost = pos 0;
  realized_pnl = pos 0;
}

abbrev pub or_flat : String → Option Position → Position
or_flat symbol none = flat symbol
or_flat symbol (some p) = p

-- The average cost after opening or adding.
abbrev pub blended : Position → Fill → ℤ → ℤ
blended p f new_quantity =
    if eqb_ℤ p.quantity (pos 0)
    then f.price
    else divide (magnitude p.quantity *ℤ p.average_cost +ℤ f.quantity *ℤ f.price)
        (magnitude new_quantity)

-- The average cost after reducing, closing or crossing through zero.
abbrev pub remaining_cost : Position → Fill → ℤ → ℤ → ℤ
remaining_cost p f delta new_quantity =
    if eqb_ℤ new_quantity (pos 0)
    then pos 0
    else if same_sign new_quantity delta
    then f.price
    else p.average_cost

-- What is realized when the position is reduced, closed or crossed.
abbrev pub realized_delta : Position → Fill → ℤ → ℤ
realized_delta p f delta =
    min_ℤ (magnitude p.quantity) (magnitude delta)
    *ℤ (if ltb_ℤ (pos 0) p.quantity then pos 1 else negsuc 0)
    *ℤ (f.price -ℤ p.average_cost)

-- `apply_fill` on a position, with the signed quantity of the fill.
unfoldable pub fill_position : ℤ → Fill → Position → Position
fill_position delta f p =
    if eqb_ℤ p.quantity (pos 0) || same_sign p.quantity delta
    then record {
      symbol = f.symbol;
      quantity = p.quantity +ℤ delta;
      average_cost = blended p f (p.quantity +ℤ delta);
      realized_pnl = p.realized_pnl;
    }
    else record {
      symbol = f.symbol;
      quantity = p.quantity +ℤ delta;
      average_cost = remaining_cost p f delta (p.quantity +ℤ delta);
      realized_pnl = p.realized_pnl +ℤ realized_delta p f delta;
    }

unfoldable pub apply_fill : Option Position → Fill → Position
apply_fill position f = fill_position (signed f.side f.quantity) f (or_flat f.symbol position)

unfoldable pub balance_after : OrderSide → ℤ → ℤ → ℤ → ℤ
balance_after buy balance notional commission = balance -ℤ notional -ℤ commission
balance_after sell balance notional commission = balance +ℤ notional -ℤ commission

unfoldable pub apply_fill_to_cash : CashLedger → Fill → CashLedger
apply_fill_to_cash cash f = record cash {
  balance = balance_after f.side cash.balance (f.quantity *ℤ f.price) f.commission;
}

unfoldable pub unrealized_pnl : Position → ℤ → ℤ
unrealized_pnl p current_price = p.quantity *ℤ (current_price -ℤ p.average_cost)

-- One term of a sum over the positions, at the position's price.
abbrev priced : (ℤ → ℤ) → Option ℤ → ℤ → Attempt ℤ
priced measure none total = fail no_current_price
priced measure (some price) total = done (total +ℤ measure price)

unfoldable pub value_loop : Dict Position → Dict ℤ → ℤ → Attempt ℤ
value_loop [] prices total = done total
value_loop ((symbol, p) ∷ positions) prices total =
    priced (λ price. p.quantity *ℤ price) (lookup symbol prices) total >>= λ sum.
    value_loop positions prices sum

unfoldable pub portfolio_value : CashLedger → Dict Position → Dict ℤ → Attempt ℤ
portfolio_value cash positions prices = value_loop positions prices cash.balance

unfoldable pub buying_power : CashLedger → Dict Position → Dict ℤ → Bool → ℤ → Attempt ℤ
buying_power cash positions prices leverage_enabled max_leverage =
    if leverage_enabled
    then (portfolio_value cash positions prices >>= λ equity. done (scaled equity max_leverage))
    else done cash.balance

unfoldable pub margin_loop : Dict Position → Dict ℤ → ℤ → ℤ → Attempt ℤ
margin_loop [] prices rate total = done total
margin_loop ((symbol, p) ∷ positions) prices rate total =
    priced (λ price. scaled (magnitude (p.quantity *ℤ price)) rate) (lookup symbol prices) total
    >>= λ sum. margin_loop positions prices rate sum

unfoldable pub maintenance_margin_requirement : Dict Position → Dict ℤ → ℤ → Attempt ℤ
maintenance_margin_requirement positions prices rate = margin_loop positions prices rate (pos 0)

unfoldable pub is_maintenance_breach : CashLedger → Dict Position → Dict ℤ → ℤ → Attempt Bool
is_maintenance_breach cash positions prices rate =
    portfolio_value cash positions prices >>= λ equity.
    maintenance_margin_requirement positions prices rate >>= λ requirement.
    done (ltb_ℤ equity requirement)

abbrev pub exceeds : OrderSide → Fill → Attempt ℤ → Attempt Bool
exceeds sell f available = done false
exceeds buy f available =
    available >>= λ power. done (ltb_ℤ power (f.quantity *ℤ f.price +ℤ f.commission))

unfoldable pub would_exceed_buying_power :
    Fill → CashLedger → Dict Position → Dict ℤ → Bool → ℤ → Attempt Bool
would_exceed_buying_power f cash positions prices leverage_enabled max_leverage =
    exceeds f.side f (buying_power cash positions prices leverage_enabled max_leverage)
