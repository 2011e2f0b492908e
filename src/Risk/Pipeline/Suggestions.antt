-- ===== src/Risk/Pipeline/Suggestions.antt =====
-- Where the quantity comes from that caps the sizing's in `RiskPipeline.evaluate`
-- (backend/risk-engine/src/aqros_risk_engine/domain/pipeline.py).
use aqros.Shared.{
  ◌≡◌, refl, ◌∙◌, ◌⊎◌, inl, inr, Option, none, some, List, [], ◌∷◌, Any, Bool-cases, arith,
}
use aqros.Shared.Int.{ℤ}
use aqros.Shared.Action.{Outcome, done, raised, Ensures, Ensures-map}
use aqros.Risk.Numbers.{Numbers, RuleError}
use aqros.Risk.Models.{RiskDecision, reduce, RiskVerdict}
use aqros.Risk.Breaker.{CircuitBreaker}
use aqros.Risk.Rules.Context.{EvaluationContext, Rule}
use aqros.Risk.Pipeline.{Tally, decide, note, is_reject, run_rules}
use aqros.Risk.Pipeline.Loop.{run_raised, run_none, run_rejected, run_lenient}

decide-suggested :
    (d : RiskDecision) (o : Option ℤ) (t : Tally)
    → ((decide d o t).suggested ≡ t.suggested)
      ⊎ ((s : ℤ) × ((decide d o t).suggested ≡ some s) × (d ≡ reduce) × (o ≡ some s))
decide-suggested RiskDecision.reduce none t = inl refl
decide-suggested RiskDecision.reduce (some s) t = inr (s, refl, refl, refl)
decide-suggested RiskDecision.approve o t = inl refl
decide-suggested RiskDecision.reject o t = inl refl
decide-suggested RiskDecision.modify o t = inl (ground arith)

module _ (N : Numbers) (ctx : EvaluationContext N) where
  -- At some state of the breaker the rule asked to reduce the quantity to this one.
  abbrev pub Suggests : ℤ → Rule N → Type 0
  Suggests s rule =
      (b b' : CircuitBreaker N) × (v : RiskVerdict) × (rule ctx b ≡ done (some v, b'))
      × (v.decision ≡ reduce)
      × (v.suggested_quantity ≡ some s)

  -- What the loop adds to the tally: no suggestion, or that of one of the rules.
  abbrev pub IsTraced : List (Rule N) → Tally → Tally → Type 0
  IsTraced rules t t' =
      (t'.suggested ≡ t.suggested) ⊎ ((s : ℤ) × (t'.suggested ≡ some s) × Any (Suggests s) rules)

  note-IsTraced :
      (rule : Rule N) (rules : List (Rule N)) (b c : CircuitBreaker N) (v : RiskVerdict) (t : Tally)
      → rule ctx b ≡ done (some v, c)
      → IsTraced (rule ∷ rules) t (note v t)
  unfolding note
  note-IsTraced rule rules b c v t f = elim (decide-suggested v.decision v.suggested_quantity _) [
    | inl same ↦ inl same
    | inr (s, at, d, q) ↦ inr (s, at, inl (b, c, v, f, d, q))
  ]

  later-IsTraced :
      (rule : Rule N) (rules : List (Rule N)) (t u t' : Tally)
      → IsTraced (rule ∷ rules) t u
      → IsTraced rules u t'
      → IsTraced (rule ∷ rules) t t'
  later-IsTraced rule rules t u t' h (inr (s, at, any)) = inr (s, at, inr any)
  later-IsTraced rule rules t u t' (inl same) (inl e) = inl (e ∙ same)
  later-IsTraced rule rules t u t' (inr (s, at, any)) (inl e) = inr (s, e ∙ at, any)

  -- Whatever the loop returns, its suggestion is the one that it began with or that of a rule.
  pub run_rules-IsTraced :
      (rules : List (Rule N)) (t : Tally) (b : CircuitBreaker N)
      → Ensures (λ r. IsTraced rules t r.0) (run_rules N ctx rules t b)
  unfolding run_rules
  run_rules-IsTraced [] t b = inl refl
  run_rules-IsTraced (rule ∷ rules) t b = go (rule ctx b) refl (λ t b. run_rules-IsTraced rules t b)
    where
      go :
          (found : Outcome RuleError (CircuitBreaker N) (Option RiskVerdict × CircuitBreaker N))
          → rule ctx b ≡ found
          → ((u : Tally) (c : CircuitBreaker N)
              → Ensures (λ r. IsTraced rules u r.0) (run_rules N ctx rules u c))
          → Ensures (λ r. IsTraced (rule ∷ rules) t r.0) (run_rules N ctx (rule ∷ rules) t b)
      go (raised e c) f ih = rw (run_raised N ctx rule rules t b c e f) tt
      go (done (none, c)) f ih = rw (run_none N ctx rule rules t b c f) (
          Ensures-map (λ r. IsTraced rules t r.0) (λ r. IsTraced (rule ∷ rules) t r.0)
            (run_rules N ctx rules t c) (λ r h. later-IsTraced rule rules t t r.0 (inl refl) h)
            (ih t c))
      go (done (some v, c)) f ih = elim (Bool-cases (is_reject v.decision)) [
        | inl r ↦
            rw (run_rejected N ctx rule rules t b c v f r) (note-IsTraced rule rules b c v t f)
        | inr k ↦ rw (run_lenient N ctx rule rules t b c v f k) (
            Ensures-map (λ r. IsTraced rules (note v t) r.0) (λ r. IsTraced (rule ∷ rules) t r.0)
              (run_rules N ctx rules (note v t) c)
              (λ r h.
                later-IsTraced rule rules t (note v t) r.0 (note-IsTraced rule rules b c v t f) h)
              (ih (note v t) c))
      ]
