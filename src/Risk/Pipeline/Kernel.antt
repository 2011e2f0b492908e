-- ===== src/Risk/Pipeline/Kernel.antt =====
-- The hard limits of the risk kernel: what holds of a signal that `RiskPipeline.evaluate`
-- (backend/risk-engine/src/aqros_risk_engine/domain/pipeline.py) does not reject under all rules.
use aqros.Shared.{◌+◌, ◌≤◌, ◌≡◌, refl, true, false, Option, List, [], ◌∷◌, arith, All, ◌&&◌}
use aqros.Shared.Int.{pos, ltb_ℤ}
use aqros.Shared.Text.{str_eq}
use aqros.Shared.Action.{done, raised}
use aqros.Risk.Numbers.{Numbers, Checked, zero_f}
use aqros.Risk.Models.{RiskVerdict, PositionExposure, daily_loss_pct, position_count}
use aqros.Risk.Rules.{all_rules}
use aqros.Risk.Rules.Context.{EvaluationContext, lift, share_of_equity}
use aqros.Risk.Rules.Limits.{
  max_portfolio_exposure, max_daily_loss, max_drawdown, max_leverage, leverage, total_exposure,
  max_concurrent_positions,
}
use aqros.Risk.Rules.Filters.{
  volatility_filter, liquidity_filter, minimum_confidence, minimum_prediction_quality,
  cooldown_timer, cooldown_loop,
}
use aqros.Risk.Pipeline.Loop.{Passes}

module _ (N : Numbers) (ctx : EvaluationContext N) where
  open N use {Float, lt, le}

  -- No position is held long in the symbol of the signal.
  abbrev pub NotHeld : List (PositionExposure N) → Type 0
  NotHeld [] = Unit
  NotHeld (p ∷ ps) =
      (str_eq p.symbol ctx.signal.symbol && ltb_ℤ (pos 0) p.quantity ≡ false) × NotHeld ps

  -- The signal and the portfolio respect the limits whose rules reject.
  pub record IsWithinLimits : Type 0 where
    pub exposure_within :
        lt (share_of_equity N ctx.limits.max_portfolio_exposure_pct ctx) (total_exposure N ctx)
        ≡ false
    pub leverage_within :
        (l : Float) × (leverage N ctx ≡ done l) × (lt ctx.limits.max_leverage l ≡ false)
    pub room_for_position : position_count N ctx.portfolio + 1 ≤ ctx.limits.max_concurrent_positions
    pub confident : lt ctx.signal.confidence ctx.limits.min_confidence ≡ false
    pub predicted_well : lt ctx.signal.prediction_quality ctx.limits.min_prediction_quality ≡ false
    pub not_too_volatile : lt ctx.limits.max_volatility ctx.signal.volatility ≡ false
    pub not_too_quiet :
        lt (zero_f N) ctx.signal.volatility && lt ctx.signal.volatility ctx.limits.min_volatility
        ≡ false
    pub liquid :
        lt (zero_f N) ctx.signal.avg_daily_volume
          && lt ctx.signal.avg_daily_volume ctx.limits.min_avg_daily_volume
        ≡ false
    pub drawdown_within : le ctx.limits.max_drawdown_pct ctx.drawdown.max_drawdown_pct ≡ false
    pub loss_within : le ctx.limits.max_daily_loss_pct (daily_loss_pct N ctx.portfolio) ≡ false
    pub symbol_not_held : NotHeld ctx.portfolio.positions

  exposure_passes :
      Passes N ctx (lift N (max_portfolio_exposure N))
      → lt (share_of_equity N ctx.limits.max_portfolio_exposure_pct ctx) (total_exposure N ctx)
        ≡ false
  unfolding max_portfolio_exposure
  exposure_passes (b, b', v, e, l) = ground arith

  leverage_passes :
      Passes N ctx (lift N (max_leverage N))
      → (l : Float) × (leverage N ctx ≡ done l) × (lt ctx.limits.max_leverage l ≡ false)
  unfolding max_leverage
  leverage_passes (b, b', v, e, l) = go (leverage N ctx) refl
    where
      go :
          (found : Checked Float)
          → leverage N ctx ≡ found
          → (l : Float) × (leverage N ctx ≡ done l) × (lt ctx.limits.max_leverage l ≡ false)
      go (done x) f = (x, f, ground arith)
      go (raised x u) f = absurd (ground arith)

  positions_pass :
      Passes N ctx (lift N (max_concurrent_positions N))
      → position_count N ctx.portfolio + 1 ≤ ctx.limits.max_concurrent_positions
  unfolding max_concurrent_positions
  positions_pass (b, b', v, e, l) = ground arith

  confidence_passes :
      Passes N ctx (lift N (minimum_confidence N))
      → lt ctx.signal.confidence ctx.limits.min_confidence ≡ false
  unfolding minimum_confidence
  confidence_passes (b, b', v, e, l) = ground arith

  quality_passes :
      Passes N ctx (lift N (minimum_prediction_quality N))
      → lt ctx.signal.prediction_quality ctx.limits.min_prediction_quality ≡ false
  unfolding minimum_prediction_quality
  quality_passes (b, b', v, e, l) = ground arith

  volatility_passes :
      Passes N ctx (lift N (volatility_filter N))
      → lt ctx.limits.max_volatility ctx.signal.volatility ≡ false
  unfolding volatility_filter
  volatility_passes (b, b', v, e, l) = ground arith

  quiet_passes :
      Passes N ctx (lift N (volatility_filter N))
      → lt (zero_f N) ctx.signal.volatility && lt ctx.signal.volatility ctx.limits.min_volatility
        ≡ false
  unfolding volatility_filter
  quiet_passes (b, b', v, e, l) = ground arith

  liquidity_passes :
      Passes N ctx (lift N (liquidity_filter N))
      → lt (zero_f N) ctx.signal.avg_daily_volume
          && lt ctx.signal.avg_daily_volume ctx.limits.min_avg_daily_volume
        ≡ false
  unfolding liquidity_filter
  liquidity_passes (b, b', v, e, l) = ground arith

  drawdown_passes :
      Passes N ctx (lift N (max_drawdown N))
      → le ctx.limits.max_drawdown_pct ctx.drawdown.max_drawdown_pct ≡ false
  unfolding max_drawdown
  drawdown_passes (b, b', v, e, l) = ground arith

  loss_passes :
      Passes N ctx (lift N (max_daily_loss N))
      → le ctx.limits.max_daily_loss_pct (daily_loss_pct N ctx.portfolio) ≡ false
  unfolding max_daily_loss
  loss_passes (b, b', v, e, l) = ground arith

  cooldown_loop_passes :
      (ps : List (PositionExposure N)) (v : Option RiskVerdict)
      → ctx.now.aware ≡ true
      → cooldown_loop N ctx ps ≡ done v
      → NotHeld ps
  unfolding cooldown_loop
  cooldown_loop_passes [] v a e = tt
  cooldown_loop_passes (p ∷ ps) v a e = ground (arith, cooldown_loop_passes ps v a)

  cooldown_passes :
      Passes N ctx (lift N (cooldown_timer N))
      → ctx.now.aware ≡ true
      → NotHeld ctx.portfolio.positions
  unfolding cooldown_timer
  cooldown_passes (b, b', v, e, l) a = go (cooldown_loop N ctx ctx.portfolio.positions) refl
    where
      go :
          (found : Checked (Option RiskVerdict))
          → cooldown_loop N ctx ctx.portfolio.positions ≡ found
          → NotHeld ctx.portfolio.positions
      go (done w) f = cooldown_loop_passes ctx.portfolio.positions w a f
      go (raised x u) f = absurd (ground arith)

  pub all_pass-IsWithinLimits :
      ctx.now.aware ≡ true → All (Passes N ctx) (all_rules N) → IsWithinLimits
  unfolding all_rules
  all_pass-IsWithinLimits zoned h = record {
    exposure_within = exposure_passes h.1.0;
    leverage_within = leverage_passes h.1.1.0;
    room_for_position = positions_pass h.1.1.1.0;
    confident = confidence_passes h.1.1.1.1.0;
    predicted_well = quality_passes h.1.1.1.1.1.0;
    not_too_volatile = volatility_passes h.1.1.1.1.1.1.0;
    not_too_quiet = quiet_passes h.1.1.1.1.1.1.0;
    liquid = liquidity_passes h.1.1.1.1.1.1.1.0;
    drawdown_within = drawdown_passes h.1.1.1.1.1.1.1.1.0;
    loss_within = loss_passes h.1.1.1.1.1.1.1.1.1.0;
    symbol_not_held = cooldown_passes h.1.1.1.1.1.1.1.1.1.1.1.1.1.0 zoned;
  }
