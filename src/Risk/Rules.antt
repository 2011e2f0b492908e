-- ===== src/Risk/Rules.antt =====
-- The rules of backend/risk-engine/src/aqros_risk_engine/domain/rules.py. `Context` has what a rule
-- reads, `Limits` the rules on exposure, losses and leverage, and `Filters` those on the signal, the
-- cooldown timer and the circuit breaker. A rule may change the breaker, which it shares with the
-- pipeline; the messages of the verdicts are not modelled.
pub mod Context
pub mod Limits
pub mod Filters
use aqros.Shared.{List, [], ◌∷◌}
use aqros.Risk.Numbers.{Numbers}
use Context.{Rule, lift}
use Limits.{
  max_position_size, max_portfolio_exposure, max_daily_loss, max_drawdown, max_leverage,
  max_concurrent_positions, max_symbol_exposure, sector_exposure,
}
use Filters.{
  volatility_filter, liquidity_filter, minimum_confidence, minimum_prediction_quality,
  cooldown_timer, circuit_breaker,
}

-- `ALL_RULES`, in order.
unfoldable pub all_rules : (N : Numbers) → List (Rule N)
all_rules N =
    circuit_breaker N
    ∷ lift N (max_portfolio_exposure N)
    ∷ lift N (max_leverage N)
    ∷ lift N (max_concurrent_positions N)
    ∷ lift N (minimum_confidence N)
    ∷ lift N (minimum_prediction_quality N)
    ∷ lift N (volatility_filter N)
    ∷ lift N (liquidity_filter N)
    ∷ lift N (max_drawdown N)
    ∷ lift N (max_daily_loss N)
    ∷ lift N (max_position_size N)
    ∷ lift N (max_symbol_exposure N)
    ∷ lift N (sector_exposure N)
    ∷ lift N (cooldown_timer N)
    ∷ []
