-- ===== src/Risk/Rules/Context.antt =====
-- What a rule of backend/risk-engine/src/aqros_risk_engine/domain/rules.py reads and returns.
use aqros.Shared.{Option, some, [], ◌∷◌}
use aqros.Shared.Int.{ℤ, ◌*ℤ◌}
use aqros.Shared.Action.{Outcome, done, raised}
use aqros.Risk.Numbers.{Numbers, RuleError, Checked, hundred}
use aqros.Risk.Models.{
  Instant, RiskDecision, RiskReason, RiskLevel, RiskVerdict, PortfolioExposure, RiskLimits, Signal,
}
use aqros.Risk.Drawdown.{DrawdownTracker}
use aqros.Risk.Breaker.{CircuitBreaker}

-- `EvaluationContext`, without the circuit breaker, which a rule takes beside it.
pub record EvaluationContext (N : Numbers) : Type 0 where
  pub signal : Signal N
  pub portfolio : PortfolioExposure N
  pub limits : RiskLimits N
  pub drawdown : DrawdownTracker N
  pub now : Instant

abbrev pub Rule : Numbers → Type 0
Rule N =
    EvaluationContext N
    → CircuitBreaker N
    → Outcome RuleError (CircuitBreaker N) (Option RiskVerdict × CircuitBreaker N)

abbrev pub verdict : RiskDecision → RiskReason → RiskLevel → Option ℤ → Option RiskVerdict
verdict d r l q =
    some (record { decision = d; reasons = r ∷ []; risk_level = l; suggested_quantity = q })

module _ (N : Numbers) where
  open N use {Float, of_value, mul, div}

  abbrev keep_breaker :
      Checked (Option RiskVerdict)
      → CircuitBreaker N
      → Outcome RuleError (CircuitBreaker N) (Option RiskVerdict × CircuitBreaker N)
  keep_breaker (done v) b = done (v, b)
  keep_breaker (raised e u) b = raised e b

  -- A rule that does not touch the breaker.
  abbrev pub lift : (EvaluationContext N → Checked (Option RiskVerdict)) → Rule N
  lift rule ctx b = keep_breaker (rule ctx) b

  -- `float(signal.quantity * signal.current_price)`
  unfoldable pub exposure : EvaluationContext N → Float
  exposure ctx = of_value (ctx.signal.quantity *ℤ ctx.signal.current_price)

  -- `pct / 100.0 * float(portfolio.total_equity)`
  unfoldable pub share_of_equity : Float → EvaluationContext N → Float
  share_of_equity pct ctx = mul (div pct (hundred N)) (of_value ctx.portfolio.total_equity)
