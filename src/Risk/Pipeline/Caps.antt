-- ===== src/Risk/Pipeline/Caps.antt =====
-- Two rules that cap the quantity in `RiskPipeline.evaluate`
-- (backend/risk-engine/src/aqros_risk_engine/domain/pipeline.py).
use aqros.Shared.{ℕ, ◌≡◌, refl, ◌∙◌, true, some, [], ◌∷◌, arith}
use aqros.Shared.Int.{ℤ, pos, ltb_ℤ}
use aqros.Shared.Action.{done}
use aqros.Risk.Numbers.{Numbers}
use aqros.Risk.Models.{
  reduce, RiskReason, RiskVerdict, PositionSizingResult, PortfolioExposure, Signal, RiskLevel,
}
use aqros.Risk.Rules.Context.{Rule}
use aqros.Risk.Pipeline.{
  RiskPipeline, RiskPipelineResult, Tally, first_tally, run_rules, conclude, evaluate, sized, note,
  counted, counted,
}
use aqros.Risk.Pipeline.Loop.{run_lenient}
use aqros.Risk.Pipeline.Results.{prepared, rule_context}

-- A verdict that cuts the quantity down.
abbrev pub reduction : RiskReason → RiskLevel → ℤ → RiskVerdict
reduction reason level q = record {
  decision = reduce;
  reasons = reason ∷ [];
  risk_level = level;
  suggested_quantity = some q;
}

sized-reduce :
    (N : Numbers) (signal : Signal N) (latency : N.Float) (t : Tally) (size : PositionSizingResult)
    (b : ℤ)
    → t.suggested ≡ some b
    → ltb_ℤ (pos 0) b ≡ true
    → ltb_ℤ b size.quantity ≡ true
    → ((sized N signal latency t size).decision ≡ reduce)
      × ((sized N signal latency t size).approved_quantity ≡ b)
unfolding sized
sized-reduce N signal latency t size b s l h = rw s (ground arith)

suggested-note :
    (reason : RiskReason) (level : RiskLevel) (b : ℤ) (t : Tally)
    → (note (reduction reason level b) t).suggested ≡ some b
unfolding note
suggested-note reason level b t = refl

module _ (N : Numbers) (clock : ℕ) (latency : N.Float) (signal : Signal N)
    (portfolio : PortfolioExposure N) (p : RiskPipeline N) (first second : Rule N)
    (reason reason' : RiskReason) (level level' : RiskLevel) (a b : ℤ) where
  -- Of two rules that cap the quantity, the later one decides: if the first suggests `a`, the second a
  -- larger `b`, and the sizing gives more than `b`, then the evaluation returns and approves `b`,
  -- which is more than the first rule allows.
  pub evaluate_caps :
      p.rules ≡ first ∷ second ∷ []
      → first (rule_context N clock latency signal portfolio p) p.circuit_breaker
        ≡ done (some (reduction reason level a), p.circuit_breaker)
      → second (rule_context N clock latency signal portfolio p) p.circuit_breaker
        ≡ done (some (reduction reason' level' b), p.circuit_breaker)
      → (size : PositionSizingResult)
      → p.sizing (rule_context N clock latency signal portfolio p) ≡ done size
      → ltb_ℤ (pos 0) a ≡ true
      → ltb_ℤ a b ≡ true
      → ltb_ℤ b size.quantity ≡ true
      → (r : RiskPipelineResult N) × (p' : RiskPipeline N) × (evaluate N clock latency signal
            portfolio p
          ≡ done (r, p'))
        × (r.decision ≡ reduce)
        × (r.approved_quantity ≡ b)
        × (ltb_ℤ a r.approved_quantity ≡ true)
  unfolding evaluate conclude note run_rules
  evaluate_caps listed asked asked' size sizing a_pos ab bs =
      let ctx = rule_context N clock latency signal portfolio p in
      let c = p.circuit_breaker in
      let v = reduction reason level a in
      let w = reduction reason' level' b in
      let t = note w (note v first_tally) in
      let r = sized N signal latency t size in
      let q = record (prepared N clock latency signal portfolio p) { circuit_breaker = c } in
      let (decided, approved) = sized-reduce N signal latency t size b refl (ground arith) bs in
      let ran = run_lenient N ctx first (second ∷ []) first_tally c c v asked refl in
      let ran' = run_lenient N ctx second [] (note v first_tally) c c w asked' refl in
      (
        r,
        counted N r.decision latency q,
        rw listed (rw (ran ∙ ran') (rw sizing refl)),
        decided,
        approved,
        rw approved ab,
      )
