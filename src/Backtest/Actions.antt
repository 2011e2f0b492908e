-- ===== src/Backtest/Actions.antt =====
-- Corporate actions
-- (backend/backtesting-engine/src/aqros_backtesting_engine/domain/corporate_actions.py) and the guard
-- of domain/lookahead.py. The description is the trade log's text; here it is whether there is one.
use aqros.Shared.{ℕ, Bool, true, false, Option, none, some, ltb, if◌then◌else◌}
use aqros.Shared.Int.{scaled, ℤ, pos, ◌+ℤ◌, ◌-ℤ◌, ◌*ℤ◌, eqb_ℤ, divide}
use aqros.Shared.Action.{done, ◌>>=◌}
use aqros.Backtest.Models.{
  CorporateAction, CorporateActionType, split, reverse_split, cash_dividend, stock_dividend,
  symbol_change, merger, delisting, Position, CashLedger, look_ahead, malformed_action,
}
use aqros.Backtest.Accounts.{Attempt, fail}

unfoldable pub assert_knowable : ℕ → ℕ → Attempt (Unit {0})
assert_knowable knowledge_time clock = if ltb clock knowledge_time then fail look_ahead else done tt

abbrev pub Adjusted : Type 0
Adjusted = Option Position × CashLedger × Bool

unfoldable pub rescale_position : Position → ℤ → Position
rescale_position p factor =
    let new_quantity = scaled p.quantity factor in
    record p {
      quantity = new_quantity;
      average_cost =
          if eqb_ℤ new_quantity (pos 0)
          then pos 0
          else divide (p.quantity *ℤ p.average_cost) new_quantity;
    }

-- `_apply_split` and, with one added to the ratio, `_apply_stock_dividend`.
abbrev pub apply_split : ℤ → Option ℤ → Option Position → CashLedger → Attempt Adjusted
apply_split base none position cash = fail malformed_action
apply_split base (some ratio) none cash = done (none, cash, false)
apply_split base (some ratio) (some p) cash =
    done (some (rescale_position p (base +ℤ ratio)), cash, true)

abbrev pub apply_cash_dividend : Option ℤ → Option Position → CashLedger → Attempt Adjusted
apply_cash_dividend none position cash = fail malformed_action
apply_cash_dividend (some amount) none cash = done (none, cash, false)
apply_cash_dividend (some amount) (some p) cash =
    done (some p, record cash { balance = cash.balance +ℤ p.quantity *ℤ amount }, true)

abbrev pub apply_symbol_change : CorporateAction → Option Position → CashLedger → Attempt Adjusted
apply_symbol_change action position cash = elim action.successor_symbol [
  | none ↦ fail malformed_action
  | some successor ↦ elim position [
    | none ↦ done (none, cash, false)
    | some p ↦ done (some (record p { symbol = successor }), cash, true)
  ]
]

-- Rounded to units of 10⁻⁸; a value is counted in units of 10⁻¹⁶.
abbrev pub payout_of : Option ℤ → ℤ → ℤ
payout_of none quantity = pos 0
payout_of (some amount) quantity = divide (quantity *ℤ amount) (pos 100000000) *ℤ pos 100000000

abbrev pub apply_delisting : Option ℤ → Option Position → CashLedger → Attempt Adjusted
apply_delisting amount none cash = done (none, cash, false)
apply_delisting amount (some p) cash =
    let payout = payout_of amount p.quantity in
    done (
      some (record p {
        quantity = pos 0;
        average_cost = pos 0;
        realized_pnl = p.realized_pnl +ℤ (payout -ℤ p.quantity *ℤ p.average_cost);
      }),
      (if eqb_ℤ payout (pos 0) then cash else record cash { balance = cash.balance +ℤ payout }),
      true,
    )

abbrev pub adjust_by :
    CorporateActionType → CorporateAction → Option Position → CashLedger → Attempt Adjusted
adjust_by split action position cash = apply_split (pos 0) action.ratio position cash
adjust_by reverse_split action position cash = apply_split (pos 0) action.ratio position cash
adjust_by cash_dividend action position cash = apply_cash_dividend action.cash_amount position cash
adjust_by stock_dividend action position cash =
    apply_split (pos 100000000) action.ratio position cash
adjust_by symbol_change action position cash = apply_symbol_change action position cash
adjust_by merger action position cash = apply_symbol_change action position cash
adjust_by delisting action position cash = apply_delisting action.cash_amount position cash

unfoldable pub apply_corporate_action :
    CorporateAction → Option Position → CashLedger → ℕ → Attempt Adjusted
apply_corporate_action action position cash clock =
    assert_knowable action.knowledge_time clock >>= λ _.
    adjust_by action.action_type action position cash
