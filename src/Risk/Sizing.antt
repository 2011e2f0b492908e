-- ===== src/Risk/Sizing.antt =====
-- The strategies of backend/risk-engine/src/aqros_risk_engine/domain/sizing.py. The texts of the
-- reasons are not modelled.
use aqros.Shared.{◌/◌, String, none, some, ◌||◌, if◌then◌else◌}
use aqros.Shared.Int.{ℤ, pos, ◌*ℤ◌, ltb_ℤ, eqb_ℤ, pos_part, neg_part, negate}
use aqros.Shared.Action.{done, ◌>>=◌}
use aqros.Risk.Numbers.{
  Numbers, Checked, zero_f, hundred, max_f, min_f, divide_f, int_f, finite, of_units,
}
use aqros.Risk.Models.{PositionSizingResult}
use aqros.Risk.Rules.Context.{EvaluationContext}

-- A result with a quantity only.
abbrev plain : String → ℤ → PositionSizingResult
plain method q = record {
  quantity = q;
  sizing_method = method;
  risk_per_trade = pos 0;
  stop_loss = none;
}

-- `max(quantity, 0)`
abbrev at_least_zero : ℤ → ℤ
at_least_zero q = if ltb_ℤ q (pos 0) then pos 0 else q

-- `int(a / b)` of two decimals: the quotient without its fraction.
abbrev truncate : ℤ → ℤ → ℤ
truncate (pos n) (pos d) = pos (n / d)
truncate a b =
    if ltb_ℤ a (pos 0)
    then (if ltb_ℤ b (pos 0)
        then pos (neg_part a / neg_part b)
        else negate (neg_part a / pos_part b))
    else negate (pos_part a / neg_part b)

unfoldable pub fixed_quantity :
    (N : Numbers) → ℤ → EvaluationContext N → Checked PositionSizingResult
fixed_quantity N quantity ctx = done (plain "fixed_quantity" quantity)

module _ (N : Numbers) where
  open N use {
    Float, lit, of_price, of_value, add, sub, mul, div, abs, lt, eq, lot, to_price, to_value,
  }

  unfoldable pub fixed_dollar : ℤ → EvaluationContext N → Checked PositionSizingResult
  fixed_dollar dollar_amount ctx =
      let price = ctx.signal.current_price in
      done (
        plain "fixed_dollar" (
          if eqb_ℤ price (pos 0)
          then pos 0
          else of_units N (truncate dollar_amount (price *ℤ pos lot))))

  -- `int(amount / float(price))` units.
  abbrev units_for : Float → Float → Checked ℤ
  units_for amount price = do q ← divide_f N amount price; int_f N q

  unfoldable pub percentage_of_equity : Float → EvaluationContext N → Checked PositionSizingResult
  percentage_of_equity percentage ctx =
      let equity = ctx.portfolio.total_equity in
      let price = ctx.signal.current_price in
      if eqb_ℤ price (pos 0) || eqb_ℤ equity (pos 0)
      then done (plain "percentage_of_equity" (pos 0))
      else (do
        n ← units_for (mul (of_value equity) (div percentage (hundred N))) (of_price price)
        done (plain "percentage_of_equity" (of_units N n)))

  -- `float(total_equity) if total_equity > 0 else 1_000_000.0`
  abbrev equity_or_default : EvaluationContext N → Float
  equity_or_default ctx =
      if ltb_ℤ (pos 0) ctx.portfolio.total_equity
      then of_value ctx.portfolio.total_equity
      else lit (pos 1_000_000) 0

  unfoldable pub kelly_criterion : Float → EvaluationContext N → Checked PositionSizingResult
  kelly_criterion kelly_fraction ctx =
      let win_prob = max_f N (min_f N ctx.signal.confidence (lit (pos 99) 2)) (lit (pos 1) 2) in
      let size = abs ctx.signal.prediction in
      let odds = if lt (zero_f N) size then size else lit (pos 1) 2 in
      do
        kelly ← divide_f N (sub (mul win_prob odds) (sub (lit (pos 1) 0) win_prob)) odds
        let share = mul (max_f N (zero_f N) kelly) kelly_fraction
        if eqb_ℤ ctx.signal.current_price (pos 0)
            then done (plain "kelly_criterion" (pos 0))
            else (do
              n ← units_for (mul (equity_or_default ctx) share) (of_price ctx.signal.current_price)
              done (plain "kelly_criterion" (of_units N (at_least_zero n))))

  unfoldable pub volatility_targeting : Float → EvaluationContext N → Checked PositionSizingResult
  volatility_targeting target_volatility ctx =
      let v = ctx.signal.volatility in
      let vol = if lt (zero_f N) v then v else lit (pos 2) 1 in
      do
        scaling ← divide_f N target_volatility vol
        if eqb_ℤ ctx.signal.current_price (pos 0)
            then done (plain "volatility_targeting" (pos 0))
            else (do
              n ←
                  units_for (mul (mul (equity_or_default ctx) (lit (pos 2) 2)) scaling)
                    (of_price ctx.signal.current_price)
              done (plain "volatility_targeting" (of_units N (at_least_zero n))))

  unfoldable pub atr_sizing : EvaluationContext N → Checked PositionSizingResult
  atr_sizing ctx =
      let price = of_price ctx.signal.current_price in
      let v = ctx.signal.volatility in
      let atr = if lt (zero_f N) v then mul v price else mul price (lit (pos 2) 2) in
      let risk_per_share = mul atr (lit (pos 2) 0) in
      if eq risk_per_share (zero_f N) then done (plain "atr_sizing" (pos 0)) else (do
        n ← units_for (mul (equity_or_default ctx) (div (lit (pos 5) 1) (hundred N))) risk_per_share
        done (plain "atr_sizing" (of_units N (at_least_zero n))))

  unfoldable pub risk_per_trade : Float → Float → EvaluationContext N → Checked PositionSizingResult
  risk_per_trade risk_per_trade_pct stop_loss_pct ctx =
      let price = of_price ctx.signal.current_price in
      let risk_amount = mul (equity_or_default ctx) (div risk_per_trade_pct (hundred N)) in
      let stop_share = div stop_loss_pct (hundred N) in
      let stop_distance = mul price stop_share in
      if eqb_ℤ ctx.signal.current_price (pos 0)
      then done (plain "risk_per_trade" (pos 0))
      else if eq stop_distance (zero_f N)
      then done (plain "risk_per_trade" (pos 0))
      else (do
        n ← units_for risk_amount stop_distance
        stop ← finite N (to_price (mul price (sub (lit (pos 1) 0) stop_share)))
        risk ← finite N (to_value risk_amount)
        done (record {
          quantity = of_units N (at_least_zero n);
          sizing_method = "risk_per_trade";
          risk_per_trade = risk;
          stop_loss = some stop;
        }))
