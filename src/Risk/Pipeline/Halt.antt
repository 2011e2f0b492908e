-- ===== src/Risk/Pipeline/Halt.antt =====
-- The halt of `RiskPipeline.evaluate` by its circuit breaker
-- (backend/risk-engine/src/aqros_risk_engine/domain/pipeline.py).
use aqros.Shared.{ℕ, ◌+◌, ◌<◌, ◌≡◌, refl, true, none, some, List, [], ◌∷◌, arith}
use aqros.Shared.Int.{pos}
use aqros.Shared.Action.{done}
use aqros.Risk.Numbers.{Numbers}
use aqros.Risk.Models.{
  reject, RiskReason, RiskVerdict, PortfolioExposure, Signal, Instant, critical,
}
use aqros.Risk.Breaker.{CircuitBreaker, check}
use aqros.Risk.Rules.Context.{EvaluationContext, Rule}
use aqros.Risk.Rules.Filters.{circuit_breaker}
use aqros.Risk.Pipeline.{
  RiskPipeline, RiskPipelineResult, first_tally, conclude, utc, evaluate, because, note, rejected,
  first_notes, counted,
}
use aqros.Risk.Pipeline.Loop.{run_rejected}
use aqros.Risk.Pipeline.Results.{prepared, rule_context}

-- The verdict of the breaker's rule.
abbrev halting : RiskVerdict
halting = record {
  decision = reject;
  reasons = RiskReason.circuit_breaker_active ∷ [];
  risk_level = critical;
  suggested_quantity = none;
}

module _ (N : Numbers) (clock : ℕ) (latency : N.Float) (signal : Signal N)
    (portfolio : PortfolioExposure N) (p : RiskPipeline N) (at : Instant) where
  circuit_breaker_halts :
      (ctx : EvaluationContext N) (b : CircuitBreaker N)
      → ctx.now ≡ utc N clock
      → b.is_tripped ≡ true
      → b.tripped_at ≡ some at
      → at.aware ≡ true
      → clock < at.micros + b.cooldown
      → circuit_breaker N ctx b ≡ done (some halting, b)
  unfolding circuit_breaker check
  circuit_breaker_halts ctx b now tripped when aware early = ground arith

  -- The breaker halts trading: if it is the pipeline's first rule and was tripped less than its
  -- cooldown ago, every evaluation returns a rejection without a quantity, for the one reason that
  -- the breaker is active, whatever the other rules, the limits and the sizing strategy are; the
  -- breaker stays as it was.
  pub evaluate_halted :
      (rules : List (Rule N))
      → p.rules ≡ circuit_breaker N ∷ rules
      → p.circuit_breaker.is_tripped ≡ true
      → p.circuit_breaker.tripped_at ≡ some at
      → at.aware ≡ true
      → clock < at.micros + p.circuit_breaker.cooldown
      → (r : RiskPipelineResult N) × (p' : RiskPipeline N) × (evaluate N clock latency signal
            portfolio p
          ≡ done (r, p'))
        × (r.decision ≡ reject)
        × (r.approved_quantity ≡ pos 0)
        × (r.reasons ≡ because RiskReason.circuit_breaker_active ∷ [])
        × (p'.circuit_breaker ≡ p.circuit_breaker)
  unfolding evaluate conclude note
  evaluate_halted rules listed tripped when aware early =
      let ctx = rule_context N clock latency signal portfolio p in
      let halts = circuit_breaker_halts ctx p.circuit_breaker refl tripped when aware early in
      let ran =
        run_rejected N ctx (circuit_breaker N) rules first_tally p.circuit_breaker p.circuit_breaker
          halting halts refl in
      let t = note halting first_tally in
      let r = rejected N signal latency (first_notes N t) t.risk_level t in
      let p' = counted N reject latency (record (prepared N clock latency signal portfolio p) {
        circuit_breaker = p.circuit_breaker;
      }) in
      (r, p', rw listed (rw ran refl), refl, refl, refl, refl)
