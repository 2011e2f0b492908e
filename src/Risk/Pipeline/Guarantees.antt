-- ===== src/Risk/Pipeline/Guarantees.antt =====
-- What a caller of `RiskPipeline.evaluate`
-- (backend/risk-engine/src/aqros_risk_engine/domain/pipeline.py) can rely on.
use aqros.Shared.{
  ℕ, ◌+◌, ◌≡◌, ◌≢◌, refl, sym, ◌⊎◌, inl, inr, Option, none, some, List, [], arith, All, Any,
  Bool-cases,
}
use mathlib.Core.Path.{subst}
use aqros.Shared.Int.{ℤ, pos, ◌≤ℤ◌, ltb_ℤ}
use aqros.Shared.Action.{done, Ensures-done}
use aqros.Risk.Numbers.{Numbers}
use aqros.Risk.Models.{RiskDecision, reject, PositionSizingResult, PortfolioExposure, Signal}
use aqros.Risk.Statistics.{
  RiskStatistics, IsTallied, record_evaluation, record_evaluation-IsTallied, count_hits,
}
use aqros.Risk.Rules.{all_rules}
use aqros.Risk.Rules.Context.{EvaluationContext, Rule}
use aqros.Risk.Pipeline.{
  RiskPipeline, RiskPipelineResult, Tally, first_tally, run_rules, conclude, evaluate, capped,
}
use aqros.Risk.Pipeline.Loop.{Passes, Rejects, run_rules-IsOutcome}
use aqros.Risk.Pipeline.Suggestions.{Suggests, IsTraced, run_rules-IsTraced}
use aqros.Risk.Pipeline.Kernel.{IsWithinLimits, all_pass-IsWithinLimits}
use aqros.Risk.Pipeline.Results.{
  Parts, conclude_parts, conclude_counts, prepared, rule_context, evaluate_parts,
}

-- No quantity is approved.
pub record IsRefusal (N : Numbers) (ctx : EvaluationContext N) (p : RiskPipeline N)
    (r : RiskPipelineResult N) : Type 0 where
  pub rejects : r.decision ≡ reject
  pub nothing_approved : r.approved_quantity ≡ pos 0
  pub cause :
      Any (Rejects N ctx) p.rules
      ⊎ (All (Passes N ctx) p.rules
          × ((size : PositionSizingResult) × (p.sizing ctx ≡ done size)
              × ((size.quantity ≤ℤ pos 0)
                  ⊎ ((s : ℤ) × (s ≤ℤ pos 0) × Any (Suggests N ctx s) p.rules))))

-- A quantity is approved.
pub record IsApproval (N : Numbers) (ctx : EvaluationContext N) (p : RiskPipeline N)
    (r : RiskPipelineResult N) : Type 0 where
  pub lenient : r.decision ≢ reject
  pub rules_passed : All (Passes N ctx) p.rules
  pub quantity_sized :
      (size : PositionSizingResult) × (p.sizing ctx ≡ done size)
      × (pos 1 ≤ℤ r.approved_quantity)
      × (r.approved_quantity ≤ℤ size.quantity)
      × ((r.approved_quantity ≡ size.quantity) ⊎ Any (Suggests N ctx r.approved_quantity) p.rules)

capped-le : (N : Numbers) (q : ℤ) (s : Option ℤ) → capped N q s ≤ℤ q
capped-le N q none = omega arith
capped-le N q (some s) = ground arith

-- What caps a quantity, for a tally whose suggestion is none or that of a rule.
module _ (N : Numbers) (ctx : EvaluationContext N) (rules : List (Rule N)) (t : Tally) where
  source_of :
      IsTraced N ctx rules first_tally t
      → (t.suggested ≡ none) ⊎ ((s : ℤ) × (t.suggested ≡ some s) × Any (Suggests N ctx s) rules)
  source_of (inl e) = inl e
  source_of (inr from) = inr from

  capped_source :
      (q : ℤ)
      → IsTraced N ctx rules first_tally t
      → (capped N q t.suggested ≡ q) ⊎ Any (Suggests N ctx (capped N q t.suggested)) rules
  capped_source q h = elim (source_of h) [
    | inl e ↦ rw e (inl refl)
    | inr (s, e, any) ↦
        rw e (elim (Bool-cases (ltb_ℤ s q)) [ inl l ↦ rw l (inr any) | inr l ↦ rw l (inl refl) ])
  ]

start_lenient : first_tally.decision ≢ reject
start_lenient = λ e. cc

module _ (N : Numbers) (d : RiskDecision) (latency : N.Float) (s : RiskStatistics N) where
  counted_once : (record_evaluation N d latency [] s).total_evaluations ≡ s.total_evaluations + 1
  unfolding record_evaluation
  counted_once = ground arith

  no_hits : (record_evaluation N d latency [] s).limit_hits ≡ s.limit_hits
  unfolding record_evaluation count_hits
  no_hits = ground arith

-- How the outcome of the rules and the conclusion fit together.
module _ (N : Numbers) (ctx : EvaluationContext N) (latency : N.Float) (t : Tally)
    (p q q' : RiskPipeline N) (r : RiskPipelineResult N)
    (h : conclude N ctx latency t q ≡ done (r, q')) (same : q.sizing ≡ p.sizing)
    (traced : IsTraced N ctx p.rules first_tally t) where
  justified :
      ((t.decision ≢ reject) × All (Passes N ctx) p.rules)
        ⊎ ((t.decision ≡ reject) × Any (Rejects N ctx) p.rules)
      → Parts N ctx latency t q q' r h
      → IsRefusal N ctx p r ⊎ IsApproval N ctx p r
  justified (inr (stop, any)) (inl (_, rejecting, empty)) =
      inl (record { rejects = rejecting; nothing_approved = empty; cause = inl any })
  justified (inr (stop, any)) (inr (n, _)) = absurd (n stop)
  justified (inl (n, all)) (inl (stop, _, _)) = absurd (n stop)
  justified (inl (_, all)) (inr (_, (size, sizing, inl (rejecting, empty, small)))) = inl (record {
    rejects = rejecting;
    nothing_approved = empty;
    cause = inr (
      all,
      (
        size,
        cc,
        elim (capped_source N ctx p.rules t size.quantity traced) [
          | inl e ↦ inl (rw e at small)
          | inr any ↦ inr (capped N size.quantity t.suggested, small, any)
        ],
      ),
    );
  })
  justified (inl (_, all)) (inr (_, (size, sizing, inr (keep, positive, same_)))) = inr (record {
    lenient = keep;
    rules_passed = all;
    quantity_sized = (
      size,
      cc,
      positive,
      rw same_ (capped-le N size.quantity t.suggested),
      rw same_ (capped_source N ctx p.rules t size.quantity traced),
    );
  })

module _ (N : Numbers) (clock : ℕ) (latency : N.Float) (signal : Signal N)
    (portfolio : PortfolioExposure N) (p p' : RiskPipeline N) (r : RiskPipelineResult N)
    (returned : evaluate N clock latency signal portfolio p ≡ done (r, p')) where
  -- If an evaluation returns, its result is a rejection that approves nothing, because some rule
  -- rejected or because every rule passed and the quantity that the sizing strategy gives, or one to
  -- which a rule asked to reduce it, is not positive; or every rule of the pipeline was asked and
  -- passed, and the quantity approved is positive, at most the sizing strategy's, and equal to it or
  -- to a quantity to which a rule asked to reduce it.
  pub evaluate-IsJustified :
      IsRefusal N (rule_context N clock latency signal portfolio p) p r
      ⊎ IsApproval N (rule_context N clock latency signal portfolio p) p r
  evaluate-IsJustified =
      let (t, b, ran, concluded) =
        evaluate_parts N clock latency signal portfolio p p' r returned in
      let ctx = rule_context N clock latency signal portfolio p in
      let q = record (prepared N clock latency signal portfolio p) { circuit_breaker = b } in
      let out =
        run_rules-IsOutcome N ctx p.rules first_tally t p.circuit_breaker b start_lenient tt ran in
      let traced =
        Ensures-done (λ r. IsTraced N ctx p.rules first_tally r.0)
          (run_rules N ctx p.rules first_tally p.circuit_breaker) (t, b)
          (run_rules-IsTraced N ctx p.rules first_tally p.circuit_breaker) ran in
      justified N ctx latency t p q p' r concluded refl traced out.verdict
        (conclude_parts N ctx latency t q p' r concluded)

  -- If an evaluation under all the rules, in their order, returns a result that is not a
  -- rejection, then the signal and the portfolio are within the limits on exposure, leverage,
  -- number of positions, confidence, prediction quality, volatility, liquidity, drawdown and daily
  -- loss, and no long position is held in the symbol.
  pub evaluate-IsWithinLimits :
      p.rules ≡ all_rules N
      → r.decision ≢ reject
      → IsWithinLimits N (rule_context N clock latency signal portfolio p)
  evaluate-IsWithinLimits all n = elim evaluate-IsJustified [
    | inl refusal ↦ absurd (n refusal.rejects)
    | inr approval ↦
        all_pass-IsWithinLimits N (rule_context N clock latency signal portfolio p) refl (
          subst (All (Passes N (rule_context N clock latency signal portfolio p))) all
            approval.rules_passed)
  ]

  -- If the statistics count every evaluation under one decision, an evaluation that returns keeps
  -- that, counts one evaluation more, and leaves the counts of limit hits, the rules, the limits
  -- and the sizing strategy as they were.
  pub evaluate_counts :
      IsTallied N p.stats
      → IsTallied N p'.stats
        × (p'.stats.total_evaluations ≡ p.stats.total_evaluations + 1)
        × (p'.stats.limit_hits ≡ p.stats.limit_hits)
        × (p'.rules ≡ p.rules)
        × (p'.limits ≡ p.limits)
        × (p'.sizing ≡ p.sizing)
  evaluate_counts w =
      let (t, b, ran, concluded) =
        evaluate_parts N clock latency signal portfolio p p' r returned in
      let ctx = rule_context N clock latency signal portfolio p in
      let q = record (prepared N clock latency signal portfolio p) { circuit_breaker = b } in
      let counts = conclude_counts N ctx latency t q p' r concluded in
      subst
        (λ z.
          IsTallied N z.stats
          × (z.stats.total_evaluations ≡ p.stats.total_evaluations + 1)
          × (z.stats.limit_hits ≡ p.stats.limit_hits)
          × (z.rules ≡ p.rules)
          × (z.limits ≡ p.limits)
          × (z.sizing ≡ p.sizing))
        (sym counts)
        (
          record_evaluation-IsTallied N r.decision latency [] p.stats w,
          counted_once N r.decision latency p.stats,
          no_hits N r.decision latency p.stats,
          refl,
          refl,
          refl,
        )
