-- ===== src/Risk/Tests.antt =====
-- The theorems on the risk engine (backend/risk-engine) at a concrete portfolio, over numbers that
-- count millionths in place of floats.
use aqros.Shared.{◌≡◌, refl, ◌⊎◌, true, false, none, some, List, [], ◌∷◌, arith}
use aqros.Shared.Int.{ℤ, pos, negsuc}
use aqros.Shared.Action.{done}
use aqros.Risk.Models.{reject, RiskReason, Instant}
use aqros.Risk.Breaker.Halting.{IsArmed}
use aqros.Risk.Rules.{all_rules}
use aqros.Risk.Rules.Filters.{circuit_breaker}
use aqros.Risk.Pipeline.{RiskPipeline, RiskPipelineResult, utc, evaluate, because}
use aqros.Risk.Pipeline.Results.{rule_context}
use aqros.Risk.Pipeline.Kernel.{IsWithinLimits}
use aqros.Risk.Pipeline.Guarantees.{
  IsRefusal, IsApproval, evaluate-IsJustified, evaluate-IsWithinLimits,
}
use aqros.Risk.Pipeline.Health.{
  Operation, evaluation, trade_recorded, portfolio_set, IsHealthy, operate_all,
  operate_all-IsHealthy,
}
use aqros.Risk.Pipeline.Halt.{evaluate_halted}
use aqros.Risk.Samples.{
  millionths, signal, held, portfolio, breaker, pipeline, approval, evaluated, approves,
}

evaluate-IsWithinLimits_example : IsWithinLimits millionths (
    rule_context millionths 5
      (pos 7)
      signal
      (portfolio [])
      (pipeline (all_rules millionths) (breaker false none)))
evaluate-IsWithinLimits_example =
    evaluate-IsWithinLimits millionths 5 (pos 7) signal (portfolio [])
      (pipeline (all_rules millionths) (breaker false none)) evaluated approval approves refl
      (λ e. cc)

evaluate-IsJustified_example :
    IsRefusal millionths
      (rule_context millionths 5
        (pos 7)
        signal
        (portfolio [])
        (pipeline (all_rules millionths) (breaker false none)))
      (pipeline (all_rules millionths) (breaker false none))
      approval
    ⊎ IsApproval millionths
        (rule_context millionths 5
          (pos 7)
          signal
          (portfolio [])
          (pipeline (all_rules millionths) (breaker false none)))
        (pipeline (all_rules millionths) (breaker false none))
        approval
evaluate-IsJustified_example =
    evaluate-IsJustified millionths 5 (pos 7) signal (portfolio [])
      (pipeline (all_rules millionths) (breaker false none)) evaluated approval approves

abbrev earlier : Instant
earlier = utc millionths 4

evaluate_halted_example :
    (r : RiskPipelineResult millionths) × (p' : RiskPipeline millionths) × (evaluate millionths 5
        (pos 7)
        signal
        (portfolio [])
        (pipeline (circuit_breaker millionths ∷ []) (breaker true (some earlier)))
      ≡ done (r, p'))
    × (r.decision ≡ reject)
    × (r.approved_quantity ≡ pos 0)
    × (r.reasons ≡ because RiskReason.circuit_breaker_active ∷ [])
    × (p'.circuit_breaker ≡ breaker true (some earlier))
evaluate_halted_example =
    evaluate_halted millionths 5 (pos 7) signal (portfolio [])
      (pipeline (circuit_breaker millionths ∷ []) (breaker true (some earlier))) earlier [] refl
      refl refl refl (omega arith)

abbrev losses : List (ℤ × ℤ × Instant)
losses =
    (negsuc 0, pos 1_000_000, earlier)
    ∷ (negsuc 0, pos 1_000_000, earlier)
    ∷ (negsuc 0, pos 1_000_000, earlier)
    ∷ []

breaker-IsArmed : IsArmed millionths (breaker false none)
breaker-IsArmed = record {
  limit_positive = ground arith;
  below_limit = ground arith;
  knows_when = ground arith;
}

abbrev operations : List (Operation millionths)
operations =
    trade_recorded (negsuc 0) (pos 1_000_000) earlier
    ∷ evaluation 5 (pos 7) signal (portfolio [])
    ∷ portfolio_set (portfolio (held ∷ []))
    ∷ evaluation 6 (pos 7) signal (portfolio (held ∷ []))
    ∷ []

operate_all-IsHealthy_example :
    IsHealthy millionths
      (operate_all millionths operations (pipeline (all_rules millionths) (breaker false none)))
operate_all-IsHealthy_example =
    operate_all-IsHealthy millionths operations
      (pipeline (all_rules millionths) (breaker false none))
      (record {
        kernel_rules = refl;
        armed = breaker-IsArmed;
        tallied = record { all_counted = refl };
      })
