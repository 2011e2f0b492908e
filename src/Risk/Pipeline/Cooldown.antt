-- ===== src/Risk/Pipeline/Cooldown.antt =====
-- `CooldownTimerRule` of backend/risk-engine/src/aqros_risk_engine/domain/rules.py at the time of
-- decision that `RiskPipeline.evaluate` passes to the rules, which has a time zone.
use aqros.Shared.{◌≡◌, ◌⊎◌, true, none, List, [], ◌∷◌, arith}
use aqros.Shared.Action.{done, raised}
use aqros.Risk.Numbers.{Numbers, mixed_zones}
use aqros.Risk.Models.{PositionExposure}
use aqros.Risk.Rules.Context.{EvaluationContext}
use aqros.Risk.Rules.Filters.{cooldown_loop, cooldown_timer}
use aqros.Risk.Pipeline.Kernel.{NotHeld}

module _ (N : Numbers) (ctx : EvaluationContext N) (zoned : ctx.now.aware ≡ true) where
  cooldown_loop_lem :
      (ps : List (PositionExposure N))
      → ((cooldown_loop N ctx ps ≡ done none) × NotHeld N ctx ps)
        ⊎ ((cooldown_loop N ctx ps ≡ raised mixed_zones tt) × ¬ NotHeld N ctx ps)
  unfolding cooldown_loop
  cooldown_loop_lem [] = ground arith
  cooldown_loop_lem (p ∷ ps) = ground (arith, cooldown_loop_lem ps)

  -- When the time of decision has a time zone, the cooldown timer never gives a verdict: it returns
  -- none if no position is held long in the symbol of the signal, and raises if one is.
  pub cooldown_timer_lem :
      ((cooldown_timer N ctx ≡ done none) × NotHeld N ctx ctx.portfolio.positions)
      ⊎ ((cooldown_timer N ctx ≡ raised mixed_zones tt) × ¬ NotHeld N ctx ctx.portfolio.positions)
  unfolding cooldown_timer
  cooldown_timer_lem = cooldown_loop_lem ctx.portfolio.positions
