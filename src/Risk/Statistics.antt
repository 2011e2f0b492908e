-- ===== src/Risk/Statistics.antt =====
-- `RiskStatistics` of backend/risk-engine/src/aqros_risk_engine/domain/models.py.
use text.Mathlib.Text.{starts_with}
use aqros.Shared.{ℕ, ◌+◌, ◌≡◌, String, Bool, List, [], ◌∷◌, ◌||◌, arith, if◌then◌else◌}
use aqros.Shared.Dict.{Dict, get_or, insert}
use aqros.Risk.Numbers.{Numbers, max_f}
use aqros.Risk.Models.{RiskDecision, approve, modify, reject, reduce, RiskReason}

-- The values of the enumeration `RiskReason`.
abbrev pub value : RiskReason → String
value RiskReason.max_position_exceeded = "max_position_exceeded"
value RiskReason.max_exposure_exceeded = "max_exposure_exceeded"
value RiskReason.max_daily_loss_exceeded = "max_daily_loss_exceeded"
value RiskReason.max_drawdown_exceeded = "max_drawdown_exceeded"
value RiskReason.max_leverage_exceeded = "max_leverage_exceeded"
value RiskReason.max_concurrent_positions_exceeded = "max_concurrent_positions_exceeded"
value RiskReason.max_symbol_exposure_exceeded = "max_symbol_exposure_exceeded"
value RiskReason.sector_exposure_exceeded = "sector_exposure_exceeded"
value RiskReason.volatility_too_low = "volatility_too_low"
value RiskReason.volatility_too_high = "volatility_too_high"
value RiskReason.insufficient_liquidity = "insufficient_liquidity"
value RiskReason.low_confidence = "low_confidence"
value RiskReason.low_prediction_quality = "low_prediction_quality"
value RiskReason.outside_trading_session = "outside_trading_session"
value RiskReason.cooldown_active = "cooldown_active"
value RiskReason.circuit_breaker_active = "circuit_breaker_active"
value RiskReason.position_size_reduced = "position_size_reduced"
value RiskReason.approved = "approved"
value RiskReason.kernel_ceiling = "kernel_ceiling"

module _ (N : Numbers) where
  open N use {Float, add}

  pub record RiskStatistics : Type 0 where
    pub total_evaluations : ℕ
    pub approved_count : ℕ
    pub rejected_count : ℕ
    pub modified_count : ℕ
    pub reduced_count : ℕ
    pub total_latency_ms : Float
    pub max_latency_ms : Float
    pub limit_hits : Dict ℕ

  abbrev count_decision : RiskDecision → RiskStatistics → RiskStatistics
  count_decision approve s = record s { approved_count = s.approved_count + 1 }
  count_decision reject s = record s { rejected_count = s.rejected_count + 1 }
  count_decision modify s = record s { modified_count = s.modified_count + 1 }
  count_decision reduce s = record s { reduced_count = s.reduced_count + 1 }

  abbrev is_limit : RiskReason → Bool
  is_limit r = starts_with (value r) "max_" || starts_with (value r) "circuit"

  -- The loop over the reasons.
  unfoldable pub count_hits : List RiskReason → Dict ℕ → Dict ℕ
  count_hits [] hits = hits
  count_hits (r ∷ rs) hits =
      count_hits rs
        (if is_limit r then insert (value r) (get_or (value r) 0 hits + 1) hits else hits)

  unfoldable pub record_evaluation :
      RiskDecision → Float → List RiskReason → RiskStatistics → RiskStatistics
  record_evaluation decision latency_ms reasons s =
      let t = count_decision decision (record s {
        total_evaluations = s.total_evaluations + 1;
        total_latency_ms = add s.total_latency_ms latency_ms;
        max_latency_ms = max_f N s.max_latency_ms latency_ms;
      }) in
      record t { limit_hits = count_hits reasons t.limit_hits }

  -- Every evaluation is counted under exactly one decision.
  pub record IsTallied (s : RiskStatistics) : Type 0 where
    pub all_counted :
        s.total_evaluations
        ≡ s.approved_count + s.rejected_count + s.modified_count + s.reduced_count

  pub record_evaluation-IsTallied :
      (d : RiskDecision) (latency : Float) (rs : List RiskReason) (s : RiskStatistics)
      → IsTallied s
      → IsTallied (record_evaluation d latency rs s)
  unfolding record_evaluation
  record_evaluation-IsTallied approve l rs s h = omega arith
  record_evaluation-IsTallied modify l rs s h = omega arith
  record_evaluation-IsTallied reject l rs s h = omega arith
  record_evaluation-IsTallied reduce l rs s h = omega arith
