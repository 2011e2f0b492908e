-- ===== src/Risk/Pipeline.antt =====
-- `RiskPipeline` of backend/risk-engine/src/aqros_risk_engine/domain/pipeline.py. `clock` and
-- `latency` are what the clocks give during the call. The message texts of a result are not
-- modelled; its reasons are, as the verdicts' reasons or the one text that `evaluate` writes itself.
pub mod Loop
pub mod Suggestions
pub mod Kernel
pub mod Results
pub mod Guarantees
pub mod Halt
pub mod Cooldown
pub mod Caps
pub mod Settings
pub mod Keeping
pub mod Health
use aqros.Shared.{
  ℕ, String, Bool, true, false, Option, none, some, List, [], ◌∷◌, ◌++◌, ltb, take, map,
  if◌then◌else◌,
}
use aqros.Shared.Int.{ℤ, pos, ltb_ℤ, leb_ℤ}
use aqros.Shared.Action.{Outcome, done, raised, ◌>>=◌}
use aqros.Risk.Numbers.{Numbers, RuleError, Checked, zero_f}
use aqros.Risk.Models.{
  RiskDecision, approve, modify, reject, reduce, RiskLevel, low, level_value, RiskReason, Instant,
  RiskVerdict, PositionSizingResult, PortfolioExposure, RiskLimits, Signal, daily_loss_pct,
}
use aqros.Risk.Drawdown
use aqros.Risk.Drawdown.{DrawdownTracker}
use aqros.Risk.Breaker
use aqros.Risk.Breaker.{CircuitBreaker}
use aqros.Risk.Statistics.{RiskStatistics, record_evaluation}
use aqros.Risk.Rules.Context.{EvaluationContext, Rule}

-- A reason in a result.
pub data Note : Type 0 where
  because : RiskReason → Note
  zero_quantity : Note

-- What the loop over the rules has gathered.
pub record Tally : Type 0 where
  pub rule_results : List RiskVerdict
  pub decision : RiskDecision
  pub reasons : List RiskReason
  pub risk_level : RiskLevel
  pub suggested : Option ℤ

abbrev pub first_tally : Tally
first_tally = record {
  rule_results = [];
  decision = approve;
  reasons = [];
  risk_level = low;
  suggested = none;
}

abbrev pub is_reject : RiskDecision → Bool
is_reject reject = true
is_reject _ = false

abbrev is_reduce : RiskDecision → Bool
is_reduce reduce = true
is_reduce _ = false

abbrev or_else : Option ℤ → Option ℤ → Option ℤ
or_else none q = q
or_else (some p) q = some p

-- How a verdict's decision changes the decision and the suggested quantity so far.
abbrev pub decide : RiskDecision → Option ℤ → Tally → Tally
decide reject q t = record t { decision = reject }
decide reduce q t = record t { decision = reduce; suggested = or_else q t.suggested }
decide modify q t = record t { decision = if is_reduce t.decision then reduce else modify }
decide approve q t = t

-- The body of the loop, for a rule that gives a verdict.
unfoldable pub note : RiskVerdict → Tally → Tally
note v t = decide v.decision v.suggested_quantity (record t {
  rule_results = t.rule_results ++ v ∷ [];
  reasons = t.reasons ++ v.reasons;
  risk_level =
      if ltb (level_value t.risk_level) (level_value v.risk_level)
      then v.risk_level
      else t.risk_level;
})

module _ (N : Numbers) where
  open N use {Float}

  abbrev pub Sizing : Type 0
  Sizing = EvaluationContext N → Checked PositionSizingResult

  pub record RiskPipelineResult : Type 0 where
    pub signal : Signal N
    pub decision : RiskDecision
    pub reasons : List Note
    pub risk_level : RiskLevel
    pub approved_quantity : ℤ
    pub suggested_quantity : Option ℤ
    pub stop_loss : Option ℤ
    pub sizing_result : Option PositionSizingResult
    pub latency_ms : Float
    pub rule_results : List RiskVerdict

  pub record RiskPipeline : Type 0 where
    pub rules : List (Rule N)
    pub sizing : Sizing
    pub limits : RiskLimits N
    pub stats : RiskStatistics N
    pub drawdown : DrawdownTracker N
    pub circuit_breaker : CircuitBreaker N

  -- The loop over the rules, which stops at the first verdict that rejects.
  unfoldable pub run_rules :
      EvaluationContext N
      → List (Rule N)
      → Tally
      → CircuitBreaker N
      → Outcome RuleError (CircuitBreaker N) (Tally × CircuitBreaker N)
  run_rules ctx [] t b = done (t, b)
  run_rules ctx (rule ∷ rules) t b = do
    (found, b') ← rule ctx b
    elim found [
      | none ↦ run_rules ctx rules t b'
      | some v ↦ elim (is_reject v.decision) [
        | true ↦ done (note v t, b')
        | false ↦ run_rules ctx rules (note v t) b'
      ]
    ]

  abbrev pub rejected : Signal N → Float → List Note → RiskLevel → Tally → RiskPipelineResult
  rejected signal latency reasons level t = record {
    signal = signal;
    decision = reject;
    reasons = reasons;
    risk_level = level;
    approved_quantity = pos 0;
    suggested_quantity = none;
    stop_loss = none;
    sizing_result = none;
    latency_ms = latency;
    rule_results = t.rule_results;
  }

  abbrev pub exceeds : ℤ → Option ℤ → Bool
  exceeds q none = false
  exceeds q (some s) = ltb_ℤ s q

  abbrev pub capped : ℤ → Option ℤ → ℤ
  capped q none = q
  capped q (some s) = if ltb_ℤ s q then s else q

  abbrev pub first_notes : Tally → List Note
  first_notes t = take 5 (map because t.reasons)

  -- The result for a signal that no rule rejected, from the quantity that the sizing gives.
  unfoldable pub sized : Signal N → Float → Tally → PositionSizingResult → RiskPipelineResult
  sized signal latency t size =
      let approved = capped size.quantity t.suggested in
      let decision = if exceeds size.quantity t.suggested then reduce else t.decision in
      if leb_ℤ approved (pos 0)
      then rejected signal latency (zero_quantity ∷ []) low t
      else (record {
        signal = signal;
        decision = decision;
        reasons = first_notes t;
        risk_level = t.risk_level;
        approved_quantity = approved;
        suggested_quantity = t.suggested;
        stop_loss = size.stop_loss;
        sizing_result = some size;
        latency_ms = latency;
        rule_results = t.rule_results;
      })

  abbrev pub counted : RiskDecision → Float → RiskPipeline → RiskPipeline
  counted d latency p = record p { stats = record_evaluation N d latency [] p.stats }

  -- From the tally of the rules to the result and the counted statistics.
  abbrev pub conclude_sized :
      EvaluationContext N
      → Float
      → Tally
      → RiskPipeline
      → Checked PositionSizingResult
      → Outcome RuleError RiskPipeline (RiskPipelineResult × RiskPipeline)
  conclude_sized ctx latency t p (raised e u) = raised e p
  conclude_sized ctx latency t p (done size) =
      let r = sized ctx.signal latency t size in done (r, counted r.decision latency p)

  unfoldable pub conclude :
      EvaluationContext N
      → Float
      → Tally
      → RiskPipeline
      → Outcome RuleError RiskPipeline (RiskPipelineResult × RiskPipeline)
  conclude ctx latency t p =
      if is_reject t.decision
      then done
          (rejected ctx.signal latency (first_notes t) t.risk_level t, counted reject latency p)
      else conclude_sized ctx latency t p (p.sizing ctx)

  -- The context of an evaluation, with the drawdown that the pipeline has just updated.
  abbrev pub context : Signal N → PortfolioExposure N → Instant → RiskPipeline → EvaluationContext N
  context signal portfolio now p = record {
    signal = signal;
    portfolio = portfolio;
    limits = p.limits;
    drawdown = p.drawdown;
    now = now;
  }

  abbrev pub after_rules :
      EvaluationContext N
      → Float
      → RiskPipeline
      → Outcome RuleError (CircuitBreaker N) (Tally × CircuitBreaker N)
      → Outcome RuleError RiskPipeline (RiskPipelineResult × RiskPipeline)
  after_rules ctx latency p (raised e b) = raised e (record p { circuit_breaker = b })
  after_rules ctx latency p (done (t, b)) =
      conclude ctx latency t (record p { circuit_breaker = b })

  -- `datetime.now(UTC)`
  abbrev pub utc : ℕ → Instant
  utc clock = record { micros = clock; aware = true }

  unfoldable pub evaluate :
      ℕ
      → Float
      → Signal N
      → PortfolioExposure N
      → RiskPipeline
      → Outcome RuleError RiskPipeline (RiskPipelineResult × RiskPipeline)
  evaluate clock latency signal portfolio p =
      let p' = record p { drawdown = Drawdown.update N portfolio.total_equity p.drawdown } in
      let ctx = context signal portfolio (utc clock) p' in
      after_rules ctx latency p' (run_rules ctx p'.rules first_tally p'.circuit_breaker)
