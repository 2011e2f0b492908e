-- ===== src/Risk/Models.antt =====
-- The data of backend/risk-engine/src/aqros_risk_engine/domain/models.py. Of a verdict and of a
-- sizing result the message texts are not modelled.
use aqros.Shared.{ℕ, Bool, Option, String, List, length, if◌then◌else◌}
use aqros.Shared.Int.{ℤ, pos, eqb_ℤ}
use aqros.Shared.Dict.{Dict}
use aqros.Risk.Numbers.{Numbers, zero_f, hundred, min_f}

pub data RiskDecision : Type 0 where
  approve modify reject reduce : RiskDecision

pub data RiskLevel : Type 0 where
  low medium high critical : RiskLevel

abbrev pub level_value : RiskLevel → ℕ
level_value low = 1
level_value medium = 2
level_value high = 3
level_value critical = 4

pub data RiskReason : Type 0 where
  max_position_exceeded max_exposure_exceeded max_daily_loss_exceeded : RiskReason
  max_drawdown_exceeded max_leverage_exceeded max_concurrent_positions_exceeded : RiskReason
  max_symbol_exposure_exceeded sector_exposure_exceeded volatility_too_low : RiskReason
  volatility_too_high insufficient_liquidity low_confidence low_prediction_quality : RiskReason
  outside_trading_session cooldown_active circuit_breaker_active : RiskReason
  position_size_reduced approved kernel_ceiling : RiskReason

-- A datetime: microseconds since the epoch, and whether it carries a time zone.
pub record Instant : Type 0 where
  pub micros : ℕ
  pub aware : Bool

pub record RiskVerdict : Type 0 where
  pub decision : RiskDecision
  pub reasons : List RiskReason
  pub risk_level : RiskLevel
  pub suggested_quantity : Option ℤ

pub record PositionSizingResult : Type 0 where
  pub quantity : ℤ
  pub sizing_method : String
  pub risk_per_trade : ℤ
  pub stop_loss : Option ℤ

module _ (N : Numbers) where
  open N use {Float, mul, ratio, abs}

  pub record PositionExposure : Type 0 where
    pub symbol : String
    pub quantity : ℤ
    pub avg_entry_price : ℤ
    pub current_price : ℤ
    pub market_value : ℤ
    pub unrealized_pnl : ℤ
    pub realized_pnl : ℤ
    pub sector : Option String
    pub beta : Float
    pub volatility : Float
    pub avg_daily_volume : Float

  pub record PortfolioExposure : Type 0 where
    pub total_equity : ℤ
    pub total_market_value : ℤ
    pub gross_exposure : ℤ
    pub net_exposure : ℤ
    pub cash : ℤ
    pub leverage : Float
    pub positions : List PositionExposure
    pub sector_exposures : Dict ℤ
    pub daily_pnl : ℤ
    pub portfolio_beta : Float
    pub var_95 : Float
    pub var_99 : Float

  unfoldable pub position_count : PortfolioExposure → ℕ
  position_count p = length p.positions

  unfoldable pub gross_exposure_pct : PortfolioExposure → Float
  gross_exposure_pct p =
      if eqb_ℤ p.total_equity (pos 0)
      then zero_f N
      else mul (ratio p.gross_exposure p.total_equity) (hundred N)

  unfoldable pub daily_loss_pct : PortfolioExposure → Float
  daily_loss_pct p =
      if eqb_ℤ p.total_equity (pos 0)
      then zero_f N
      else abs (min_f N (mul (ratio p.daily_pnl p.total_equity) (hundred N)) (zero_f N))

  pub record RiskLimits : Type 0 where
    pub max_position_size_pct : Float
    pub max_portfolio_exposure_pct : Float
    pub max_daily_loss_pct : Float
    pub max_drawdown_pct : Float
    pub max_leverage : Float
    pub max_concurrent_positions : ℕ
    pub max_symbol_exposure_pct : Float
    pub max_sector_exposure_pct : Float
    pub min_volatility : Float
    pub max_volatility : Float
    pub min_avg_daily_volume : Float
    pub min_confidence : Float
    pub min_prediction_quality : Float
    pub is_kernel : Bool

  pub record Signal : Type 0 where
    pub signal_id : String
    pub symbol : String
    pub side : String
    pub quantity : ℤ
    pub confidence : Float
    pub prediction : Float
    pub prediction_quality : Float
    pub current_price : ℤ
    pub sector : Option String
    pub volatility : Float
    pub avg_daily_volume : Float
    pub strategy : String
    pub correlation_id : String
    pub timestamp : Option Instant
