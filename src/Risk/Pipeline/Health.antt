-- ===== src/Risk/Pipeline/Health.antt =====
-- What stays true of a `RiskPipeline`
-- (backend/risk-engine/src/aqros_risk_engine/domain/pipeline.py) over any sequence of its operations.
use aqros.Shared.{ℕ, ◌≡◌, refl, sym, List, [], ◌∷◌, arith, All}
use mathlib.Core.Path.{subst}
use aqros.Shared.Int.{ℤ}
use aqros.Shared.Action.{Outcome, done, raised}
use aqros.Risk.Numbers.{Numbers, RuleError, Checked}
use aqros.Risk.Models.{PositionSizingResult, PortfolioExposure, Signal, Instant, RiskLimits}
use aqros.Risk.Breaker.{CircuitBreaker}
use aqros.Risk.Breaker.Halting.{IsArmed, record_trade_result-IsArmed}
use aqros.Risk.Statistics.{IsTallied, record_evaluation-IsTallied}
use aqros.Risk.Rules.{all_rules}
use aqros.Risk.Rules.Context.{EvaluationContext}
use aqros.Risk.Pipeline.{
  RiskPipeline, RiskPipelineResult, Sizing, Tally, run_rules, first_tally, conclude, evaluate,
}
use aqros.Risk.Pipeline.Results.{conclude_counts, rule_context}
use aqros.Risk.Pipeline.Settings.{
  set_portfolio, record_trade_result, set_limits, set_sizing_strategy,
}
use aqros.Risk.Pipeline.Keeping.{left_by, Keeps, all_rules-Keeps, run_rules-IsArmed}

module _ (N : Numbers) where
  -- The rules are those of the kernel, the breaker is armed, and the statistics count every
  -- evaluation under one decision.
  pub record IsHealthy (p : RiskPipeline N) : Type 0 where
    pub kernel_rules : p.rules ≡ all_rules N
    pub armed : IsArmed N p.circuit_breaker
    pub tallied : IsTallied N p.stats

  conclude_raised :
      (ctx : EvaluationContext N) (latency : N.Float) (t : Tally) (q q' : RiskPipeline N)
      (x : RuleError)
      → conclude N ctx latency t q ≡ raised x q'
      → q' ≡ q
  unfolding conclude
  conclude_raised ctx latency t q q' x e = go (q.sizing ctx) refl
    where
      go : (found : Checked PositionSizingResult) → q.sizing ctx ≡ found → q' ≡ q
      go (raised y u) f = ground arith
      go (done size) f = absurd (ground arith)

  conclude-IsHealthy :
      (ctx : EvaluationContext N) (latency : N.Float) (t : Tally) (q : RiskPipeline N)
      → IsHealthy q
      → IsHealthy (left_by (conclude N ctx latency t q))
  conclude-IsHealthy ctx latency t q h = go (conclude N ctx latency t q) refl
    where
      go :
          (found : Outcome RuleError (RiskPipeline N) (RiskPipelineResult N × RiskPipeline N))
          → conclude N ctx latency t q ≡ found
          → IsHealthy (left_by (conclude N ctx latency t q))
      go (raised x q') e = rw e (rw (conclude_raised ctx latency t q q' x e) h)
      go (done (r, q')) e = rw e (
          rw (conclude_counts N ctx latency t q q' r e) (record {
            kernel_rules = h.kernel_rules;
            armed = h.armed;
            tallied = record_evaluation-IsTallied N r.decision latency [] q.stats h.tallied;
          }))

  evaluate-IsHealthy :
      (clock : ℕ) (latency : N.Float) (signal : Signal N) (portfolio : PortfolioExposure N)
      (p : RiskPipeline N)
      → IsHealthy p
      → IsHealthy (left_by (evaluate N clock latency signal portfolio p))
  unfolding evaluate
  evaluate-IsHealthy clock latency signal portfolio p h =
      let ctx = rule_context N clock latency signal portfolio p in
      go (run_rules N ctx p.rules first_tally p.circuit_breaker) refl (
        run_rules-IsArmed N ctx p.rules first_tally p.circuit_breaker
          (subst (All (Keeps N)) (sym h.kernel_rules) (all_rules-Keeps N)) h.armed)
    where
      go :
          (found : Outcome RuleError (CircuitBreaker N) (Tally × CircuitBreaker N))
          → run_rules N
              (rule_context N clock latency signal portfolio p)
              p.rules
              first_tally
              p.circuit_breaker
            ≡ found
          → IsArmed N (
              left_by (
                run_rules N
                  (rule_context N clock latency signal portfolio p)
                  p.rules
                  first_tally
                  p.circuit_breaker))
          → IsHealthy (left_by (evaluate N clock latency signal portfolio p))
      go (raised x b) e armed =
          rw e
            (record { kernel_rules = h.kernel_rules; armed = rw e at armed; tallied = h.tallied })
      go (done (t, b)) e armed = rw e (
          conclude-IsHealthy _ latency t _
            (record { kernel_rules = h.kernel_rules; armed = rw e at armed; tallied = h.tallied }))

  -- One operation, with its arguments.
  pub data Operation : Type 0 where
    evaluation : ℕ → N.Float → Signal N → PortfolioExposure N → Operation
    portfolio_set : PortfolioExposure N → Operation
    trade_recorded : ℤ → ℤ → Instant → Operation
    limits_set : RiskLimits N → Operation
    sizing_set : Sizing N → Operation

  abbrev pub operate : Operation → RiskPipeline N → RiskPipeline N
  operate (evaluation clock latency signal portfolio) p =
      left_by (evaluate N clock latency signal portfolio p)
  operate (portfolio_set portfolio) p = set_portfolio N portfolio p
  operate (trade_recorded pnl equity now) p = record_trade_result N pnl equity now p
  operate (limits_set limits) p = set_limits N limits p
  operate (sizing_set sizing) p = set_sizing_strategy N sizing p

  unfoldable pub operate_all : List Operation → RiskPipeline N → RiskPipeline N
  operate_all [] p = p
  operate_all (o ∷ os) p = operate_all os (operate o p)

  operate-IsHealthy : (o : Operation) (p : RiskPipeline N) → IsHealthy p → IsHealthy (operate o p)
  unfolding set_portfolio record_trade_result set_limits set_sizing_strategy
  operate-IsHealthy (evaluation clock latency signal portfolio) p h =
      evaluate-IsHealthy clock latency signal portfolio p h
  operate-IsHealthy (portfolio_set portfolio) p h = record {
    kernel_rules = h.kernel_rules;
    armed = ground (arith, h.armed);
    tallied = h.tallied;
  }
  operate-IsHealthy (trade_recorded pnl equity now) p h = record {
    kernel_rules = h.kernel_rules;
    armed = record_trade_result-IsArmed N pnl equity now p.circuit_breaker h.armed;
    tallied = h.tallied;
  }
  operate-IsHealthy (limits_set limits) p h = record {
    kernel_rules = h.kernel_rules;
    armed = h.armed;
    tallied = h.tallied;
  }
  operate-IsHealthy (sizing_set sizing) p h = record {
    kernel_rules = h.kernel_rules;
    armed = h.armed;
    tallied = h.tallied;
  }

  -- If a pipeline has the rules of the kernel, an armed breaker and tallied statistics, it keeps them
  -- over any sequence of evaluations, new portfolios, recorded trades, new limits and new sizing
  -- strategies, evaluations that raise included.
  pub operate_all-IsHealthy :
      (os : List Operation) (p : RiskPipeline N) → IsHealthy p → IsHealthy (operate_all os p)
  unfolding operate_all
  operate_all-IsHealthy [] p h = h
  operate_all-IsHealthy (o ∷ os) p h =
      operate_all-IsHealthy os (operate o p) (operate-IsHealthy o p h)
