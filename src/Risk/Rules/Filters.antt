-- ===== src/Risk/Rules/Filters.antt =====
-- The rules of backend/risk-engine/src/aqros_risk_engine/domain/rules.py on the signal, the cooldown
-- timer and the circuit breaker.
use aqros.Shared.{◌*◌, Option, none, some, List, [], ◌∷◌, ◌&&◌, not, if◌then◌else◌}
use aqros.Shared.Int.{ℤ, pos, ltb_ℤ}
use aqros.Shared.Text.{str_eq}
use aqros.Shared.Action.{done, raised, ◌>>=◌}
use aqros.Risk.Numbers.{Numbers, mixed_zones, Checked, zero_f}
use aqros.Risk.Models.{
  reject, reduce, low, medium, high, critical, RiskReason, RiskVerdict, Instant, PositionExposure,
}
use aqros.Risk.Breaker.{check}
use aqros.Risk.Rules.Context.{EvaluationContext, Rule, verdict, exposure}
use aqros.Risk.Rules.Limits.{quantity_for}

module _ (N : Numbers) where
  open N use {Float, lit, mul, lt, le}

  unfoldable pub volatility_filter : EvaluationContext N → Checked (Option RiskVerdict)
  volatility_filter ctx =
      let v = ctx.signal.volatility in
      done (
        if lt (zero_f N) v && lt v ctx.limits.min_volatility
        then verdict reject RiskReason.volatility_too_low low none
        else if lt ctx.limits.max_volatility v
        then verdict reject RiskReason.volatility_too_high high none
        else none)

  unfoldable pub liquidity_filter : EvaluationContext N → Checked (Option RiskVerdict)
  liquidity_filter ctx =
      let volume = ctx.signal.avg_daily_volume in
      let fifth = mul volume (lit (pos 2) 1) in
      if lt (zero_f N) volume && lt volume ctx.limits.min_avg_daily_volume
      then done (verdict reject RiskReason.insufficient_liquidity high none)
      else if lt (zero_f N) volume && lt fifth (exposure N ctx)
      then (do
        q ← quantity_for N fifth ctx
        done (verdict reduce RiskReason.insufficient_liquidity medium (some q)))
      else done none

  unfoldable pub minimum_confidence : EvaluationContext N → Checked (Option RiskVerdict)
  minimum_confidence ctx = done (
      if lt ctx.signal.confidence ctx.limits.min_confidence
      then verdict reject RiskReason.low_confidence medium none
      else none)

  unfoldable pub minimum_prediction_quality : EvaluationContext N → Checked (Option RiskVerdict)
  minimum_prediction_quality ctx = done (
      if lt ctx.signal.prediction_quality ctx.limits.min_prediction_quality
      then verdict reject RiskReason.low_prediction_quality medium none
      else none)

  unfoldable pub trading_session : EvaluationContext N → Checked (Option RiskVerdict)
  trading_session ctx = done (
      if not (
        le ctx.limits.min_volatility ctx.signal.volatility
        && le ctx.signal.volatility ctx.limits.max_volatility)
      then verdict reject RiskReason.outside_trading_session low none
      else none)

  -- The age that `cooldown_timer` computes, in microseconds: the time since 300 seconds before now,
  -- as a datetime without a time zone. The subtraction raises if now has a time zone.
  abbrev age : Instant → Checked ℤ
  age now = if now.aware then raised mixed_zones tt else done (pos (300 * 1_000_000))

  abbrev five_minutes : ℤ
  five_minutes = pos (5 * 60 * 1_000_000)

  -- The loop over the positions.
  unfoldable pub cooldown_loop :
      EvaluationContext N → List (PositionExposure N) → Checked (Option RiskVerdict)
  cooldown_loop ctx [] = done none
  cooldown_loop ctx (p ∷ ps) =
      let rest = cooldown_loop ctx ps in
      if str_eq p.symbol ctx.signal.symbol && ltb_ℤ (pos 0) p.quantity
      then (do
        minutes ← age ctx.now
        if ltb_ℤ minutes five_minutes
            then done (verdict reject RiskReason.cooldown_active low none)
            else rest)
      else rest

  unfoldable pub cooldown_timer : EvaluationContext N → Checked (Option RiskVerdict)
  cooldown_timer ctx = cooldown_loop ctx ctx.portfolio.positions

  unfoldable pub circuit_breaker : Rule N
  circuit_breaker ctx b = do
    (halted, b') ← check N ctx.now b
    done (
      if halted then verdict reject RiskReason.circuit_breaker_active critical none else none,
      b',
    )
