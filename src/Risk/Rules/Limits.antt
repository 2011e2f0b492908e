-- ===== src/Risk/Rules/Limits.antt =====
-- The rules of backend/risk-engine/src/aqros_risk_engine/domain/rules.py on exposure, losses,
-- drawdown and leverage.
use aqros.Shared.{String, Option, none, some, List, [], ◌∷◌, leb, if◌then◌else◌}
use aqros.Shared.Int.{ℤ, pos, ltb_ℤ}
use aqros.Shared.Text.{str_eq}
use aqros.Shared.Dict.{get_or}
use aqros.Shared.Action.{done, ◌>>=◌}
use aqros.Risk.Numbers.{Numbers, Checked, zero_f, of_units, divide_f, round_f}
use aqros.Risk.Models.{
  reject, reduce, high, critical, RiskReason, RiskVerdict, PositionExposure, daily_loss_pct,
  position_count,
}
use aqros.Risk.Rules.Context.{EvaluationContext, verdict, exposure, share_of_equity}

module _ (N : Numbers) where
  open N use {Float, lit, of_price, of_value, add, sub, mul, div, lt, le}

  -- `Decimal(str(round(amount / float(signal.current_price))))`
  unfoldable pub quantity_for : Float → EvaluationContext N → Checked ℤ
  quantity_for amount ctx = do
    q ← divide_f N amount (of_price ctx.signal.current_price)
    n ← round_f N q
    done (of_units N n)

  unfoldable pub max_position_size : EvaluationContext N → Checked (Option RiskVerdict)
  max_position_size ctx =
      let max_value = share_of_equity N ctx.limits.max_position_size_pct ctx in
      if lt max_value (exposure N ctx)
      then (do
        q ← quantity_for max_value ctx
        done (verdict reduce RiskReason.max_position_exceeded high (some q)))
      else done none

  -- The gross exposure with the signal's.
  abbrev pub total_exposure : EvaluationContext N → Float
  total_exposure ctx = add (of_value ctx.portfolio.gross_exposure) (exposure N ctx)

  unfoldable pub max_portfolio_exposure : EvaluationContext N → Checked (Option RiskVerdict)
  max_portfolio_exposure ctx = done (
      if lt (share_of_equity N ctx.limits.max_portfolio_exposure_pct ctx) (total_exposure ctx)
      then verdict reject RiskReason.max_exposure_exceeded critical none
      else none)

  unfoldable pub max_daily_loss : EvaluationContext N → Checked (Option RiskVerdict)
  max_daily_loss ctx =
      let loss = daily_loss_pct N ctx.portfolio in
      let limit = ctx.limits.max_daily_loss_pct in
      done (
        if le limit loss
        then verdict reject RiskReason.max_daily_loss_exceeded critical none
        else if le (mul limit (lit (pos 8) 1)) loss
        then (if le limit (add loss (mul ctx.limits.max_position_size_pct (lit (pos 5) 1)))
            then verdict reduce RiskReason.max_daily_loss_exceeded high none
            else none)
        else none)

  unfoldable pub max_drawdown : EvaluationContext N → Checked (Option RiskVerdict)
  max_drawdown ctx = done (
      if le ctx.limits.max_drawdown_pct ctx.drawdown.max_drawdown_pct
      then verdict reject RiskReason.max_drawdown_exceeded critical none
      else if le (mul ctx.limits.max_drawdown_pct (lit (pos 8) 1)) ctx.drawdown.current_drawdown_pct
      then verdict reduce RiskReason.max_drawdown_exceeded high none
      else none)

  unfoldable pub leverage : EvaluationContext N → Checked Float
  leverage ctx =
      if ltb_ℤ (pos 0) ctx.portfolio.total_equity
      then divide_f N (total_exposure ctx) (of_value ctx.portfolio.total_equity)
      else done (zero_f N)

  unfoldable pub max_leverage : EvaluationContext N → Checked (Option RiskVerdict)
  max_leverage ctx = do
    l ← leverage ctx
    done (
        if lt ctx.limits.max_leverage l
        then verdict reject RiskReason.max_leverage_exceeded critical none
        else none)

  unfoldable pub max_concurrent_positions : EvaluationContext N → Checked (Option RiskVerdict)
  max_concurrent_positions ctx = done (
      if leb ctx.limits.max_concurrent_positions (position_count N ctx.portfolio)
      then verdict reject RiskReason.max_concurrent_positions_exceeded high none
      else none)

  -- The float sum of the market values of the positions in a symbol, from the left.
  unfoldable pub symbol_exposure : String → Float → List (PositionExposure N) → Float
  symbol_exposure symbol acc [] = acc
  symbol_exposure symbol acc (p ∷ ps) =
      symbol_exposure symbol
        (if str_eq p.symbol symbol then add acc (of_value p.market_value) else acc) ps

  unfoldable pub max_symbol_exposure : EvaluationContext N → Checked (Option RiskVerdict)
  max_symbol_exposure ctx =
      let current = symbol_exposure ctx.signal.symbol (zero_f N) ctx.portfolio.positions in
      let limit = share_of_equity N ctx.limits.max_symbol_exposure_pct ctx in
      if lt limit (add current (exposure N ctx))
      then (do
        q ← quantity_for (sub limit current) ctx
        done (verdict reduce RiskReason.max_symbol_exposure_exceeded high (some q)))
      else done none

  abbrev in_sector : Option String → EvaluationContext N → Option RiskVerdict
  in_sector none ctx = none
  in_sector (some sector) ctx =
      let current = of_value (get_or sector (pos 0) ctx.portfolio.sector_exposures) in
      if lt (share_of_equity N ctx.limits.max_sector_exposure_pct ctx)
        (add current (exposure N ctx))
      then verdict reduce RiskReason.sector_exposure_exceeded high none
      else none

  unfoldable pub sector_exposure : EvaluationContext N → Checked (Option RiskVerdict)
  sector_exposure ctx = done (in_sector ctx.signal.sector ctx)
