-- ===== src/Risk/Pipeline/Settings.antt =====
-- The operations of `RiskPipeline`
-- (backend/risk-engine/src/aqros_risk_engine/domain/pipeline.py) beside `evaluate`.
use aqros.Shared.{[]}
use aqros.Shared.Int.{ℤ, pos}
use aqros.Risk.Numbers.{Numbers, zero_f}
use aqros.Risk.Models.{Instant, PortfolioExposure, RiskLimits, daily_loss_pct}
use aqros.Risk.Drawdown
use aqros.Risk.Breaker
use aqros.Risk.Pipeline.{RiskPipeline, Sizing}

module _ (N : Numbers) where
  -- The portfolio that `evaluate` supposes if it is given none.
  abbrev pub default_portfolio : ℤ → PortfolioExposure N
  default_portfolio million = record {
    total_equity = million;
    total_market_value = pos 0;
    gross_exposure = pos 0;
    net_exposure = pos 0;
    cash = million;
    leverage = zero_f N;
    positions = [];
    sector_exposures = [];
    daily_pnl = pos 0;
    portfolio_beta = N.lit (pos 1) 0;
    var_95 = zero_f N;
    var_99 = zero_f N;
  }

  unfoldable pub set_portfolio : PortfolioExposure N → RiskPipeline N → RiskPipeline N
  set_portfolio portfolio p = record p {
    drawdown = Drawdown.update N portfolio.total_equity p.drawdown;
    circuit_breaker = record p.circuit_breaker { daily_loss_pct = daily_loss_pct N portfolio };
  }

  unfoldable pub record_trade_result : ℤ → ℤ → Instant → RiskPipeline N → RiskPipeline N
  record_trade_result pnl equity now p = record p {
    drawdown = Drawdown.update N equity p.drawdown;
    circuit_breaker = Breaker.record_trade_result N pnl equity now p.circuit_breaker;
  }

  unfoldable pub set_limits : RiskLimits N → RiskPipeline N → RiskPipeline N
  set_limits limits p = record p { limits = limits }

  unfoldable pub set_sizing_strategy : Sizing N → RiskPipeline N → RiskPipeline N
  set_sizing_strategy sizing p = record p { sizing = sizing }
