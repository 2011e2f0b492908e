-- ===== src/Risk/Pipeline/Results.antt =====
-- How the result of `RiskPipeline.evaluate`
-- (backend/risk-engine/src/aqros_risk_engine/domain/pipeline.py) comes about.
use aqros.Shared.{ℕ, ◌≡◌, ◌≢◌, refl, ◌⊎◌, inl, inr, [], arith, Bool-cases}
use aqros.Shared.Int.{pos, ◌≤ℤ◌}
use aqros.Shared.Action.{Outcome, done, raised}
use aqros.Risk.Numbers.{Numbers, RuleError, Checked}
use aqros.Risk.Models.{reject, PositionSizingResult, PortfolioExposure, Signal}
use aqros.Risk.Drawdown
use aqros.Risk.Breaker.{CircuitBreaker}
use aqros.Risk.Statistics.{record_evaluation}
use aqros.Risk.Rules.Context.{EvaluationContext}
use aqros.Risk.Pipeline.{
  RiskPipeline, RiskPipelineResult, Tally, first_tally, is_reject, run_rules, conclude, context,
  utc, evaluate, capped, sized,
}

-- The quantity and decision of a result that no rule rejected, from the sizing's result: a positive
-- quantity that is the sizing's cut down to the last quantity that a rule suggested, or a rejection.
abbrev pub FromSizing : (N : Numbers) → Tally → PositionSizingResult → RiskPipelineResult N → Type 0
FromSizing N t size r =
    ((r.decision ≡ reject)
      × (r.approved_quantity ≡ pos 0)
      × (capped N size.quantity t.suggested ≤ℤ pos 0))
    ⊎ ((r.decision ≢ reject)
        × (pos 1 ≤ℤ r.approved_quantity)
        × (r.approved_quantity ≡ capped N size.quantity t.suggested))

module _ (N : Numbers) (ctx : EvaluationContext N) (latency : N.Float) (t : Tally)
    (q q' : RiskPipeline N) (r : RiskPipelineResult N)
    (h : conclude N ctx latency t q ≡ done (r, q')) where
  -- What a conclusion comes to, by the tally's decision.
  abbrev pub Parts : Type 0
  Parts =
      ((t.decision ≡ reject) × (r.decision ≡ reject) × (r.approved_quantity ≡ pos 0))
      ⊎ ((t.decision ≢ reject)
          × ((size : PositionSizingResult) × (q.sizing ctx ≡ done size) × FromSizing N t size r))

  sized_parts :
      (size : PositionSizingResult)
      → t.decision ≢ reject
      → r ≡ sized N ctx.signal latency t size
      → FromSizing N t size r
  unfolding sized
  sized_parts size n e = ground arith

  pub conclude_parts : Parts
  unfolding conclude
  conclude_parts = elim (Bool-cases (is_reject t.decision)) [
    | inl stop ↦ inl (ground arith)
    | inr pass ↦ let n : t.decision ≢ reject = ground arith in inr (n, go n (q.sizing ctx) refl)
  ]
    where
      go :
          t.decision ≢ reject
          → (found : Checked PositionSizingResult) → q.sizing ctx ≡ found
          → (size : PositionSizingResult) × (q.sizing ctx ≡ done size) × FromSizing N t size r
      go n (raised e u) f = absurd (ground arith)
      go n (done size) f = (size, f, sized_parts size n (ground arith))

  -- The statistics count the result under its decision, and nothing else of the pipeline changes.
  pub conclude_counts : q' ≡ record q { stats = record_evaluation N r.decision latency [] q.stats }
  unfolding conclude
  conclude_counts = go (q.sizing ctx) refl
    where
      go :
          (found : Checked PositionSizingResult)
          → q.sizing ctx ≡ found
          → q' ≡ record q { stats = record_evaluation N r.decision latency [] q.stats }
      go (raised e u) f = ground arith
      go (done size) f = ground arith

module _ (N : Numbers) (clock : ℕ) (latency : N.Float) (signal : Signal N)
    (portfolio : PortfolioExposure N) (p : RiskPipeline N) where
  -- The pipeline as the rules see it, with the drawdown brought up to date, and their context.
  abbrev pub prepared : RiskPipeline N
  prepared = record p { drawdown = Drawdown.update N portfolio.total_equity p.drawdown }

  abbrev pub rule_context : EvaluationContext N
  rule_context = context N signal portfolio (utc N clock) prepared

  -- An evaluation that returns has run the rules, and concluded from their tally.
  pub evaluate_parts :
      (p' : RiskPipeline N) (r : RiskPipelineResult N)
      → evaluate N clock latency signal portfolio p ≡ done (r, p')
      → (t : Tally) × (b : CircuitBreaker N) × (run_rules N rule_context p.rules first_tally
            p.circuit_breaker
          ≡ done (t, b))
        × (conclude N rule_context latency t (record prepared { circuit_breaker = b })
            ≡ done (r, p'))
  unfolding evaluate
  evaluate_parts p' r h = go (run_rules N rule_context p.rules first_tally p.circuit_breaker) refl
    where
      go :
          (found : Outcome RuleError (CircuitBreaker N) (Tally × CircuitBreaker N))
          → run_rules N rule_context p.rules first_tally p.circuit_breaker ≡ found
          → (t : Tally) × (b : CircuitBreaker N) × (run_rules N rule_context p.rules first_tally
                p.circuit_breaker
              ≡ done (t, b))
            × (conclude N rule_context latency t (record prepared { circuit_breaker = b })
                ≡ done (r, p'))
      go (raised e b) f = absurd (ground arith)
      go (done (t, b)) f = (t, b, f, ground arith)
