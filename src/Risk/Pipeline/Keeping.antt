-- ===== src/Risk/Pipeline/Keeping.antt =====
-- The rules of the kernel keep an armed circuit breaker armed, and so does the loop over them in
-- `RiskPipeline.evaluate` (backend/risk-engine/src/aqros_risk_engine/domain/pipeline.py).
use aqros.Shared.{
  ◌≡◌, refl, inl, inr, Bool, Option, none, some, List, [], ◌∷◌, arith, All, Bool-cases,
}
use aqros.Shared.Action.{Outcome, done, raised, ◌>>=◌}
use aqros.Risk.Numbers.{Numbers, RuleError, Checked}
use aqros.Risk.Models.{RiskVerdict, Instant}
use aqros.Risk.Breaker.{CircuitBreaker, check}
use aqros.Risk.Breaker.Halting.{IsArmed, check-IsArmed}
use aqros.Risk.Rules.{all_rules}
use aqros.Risk.Rules.Context.{EvaluationContext, Rule, lift}
use aqros.Risk.Rules.Filters.{circuit_breaker}
use aqros.Risk.Pipeline.{Tally, is_reject, note, run_rules}

-- What a call leaves behind, whether it returned or raised.
abbrev pub left_by : {S A : Type 0} → Outcome RuleError S (A × S) → S
left_by (done (a, s)) = s
left_by (raised e s) = s

module _ (N : Numbers) where
  -- The rule leaves an armed breaker armed.
  abbrev pub Keeps : Rule N → Type 0
  Keeps rule =
      (ctx : EvaluationContext N) (b : CircuitBreaker N)
      → IsArmed N b
      → IsArmed N (left_by (rule ctx b))

  lift-Keeps : (f : EvaluationContext N → Checked (Option RiskVerdict)) → Keeps (lift N f)
  lift-Keeps f ctx b h = go (f ctx) refl
    where
      go :
          (found : Checked (Option RiskVerdict))
          → f ctx ≡ found
          → IsArmed N (left_by (lift N f ctx b))
      go (done v) e = rw e h
      go (raised x u) e = rw e h

  check_raised :
      (now : Instant) (b b' : CircuitBreaker N) (x : RuleError)
      → check N now b ≡ raised x b'
      → b' ≡ b
  unfolding check
  check_raised now b b' x e = ground arith

  circuit_breaker-Keeps : Keeps (circuit_breaker N)
  unfolding circuit_breaker
  circuit_breaker-Keeps ctx b h = go (check N ctx.now b) refl
    where
      go :
          (found : Outcome RuleError (CircuitBreaker N) (Bool × CircuitBreaker N))
          → check N ctx.now b ≡ found
          → IsArmed N (left_by (circuit_breaker N ctx b))
      go (done (halted, b')) e = rw (e, ◌>>=◌) (check-IsArmed N ctx.now b b' halted h e)
      go (raised x b') e = rw (e, ◌>>=◌) (rw (check_raised ctx.now b b' x e) h)

  pub all_rules-Keeps : All Keeps (all_rules N)
  unfolding all_rules
  all_rules-Keeps = (
    circuit_breaker-Keeps,
    (
      lift-Keeps _,
      (
        lift-Keeps _,
        (
          lift-Keeps _,
          (
            lift-Keeps _,
            (
              lift-Keeps _,
              (
                lift-Keeps _,
                (
                  lift-Keeps _,
                  (
                    lift-Keeps _,
                    (
                      lift-Keeps _,
                      (lift-Keeps _, (lift-Keeps _, (lift-Keeps _, (lift-Keeps _, tt)))),
                    ),
                  ),
                ),
              ),
            ),
          ),
        ),
      ),
    ),
  )

  pub run_rules-IsArmed :
      (ctx : EvaluationContext N) (rules : List (Rule N)) (t : Tally) (b : CircuitBreaker N)
      → All Keeps rules
      → IsArmed N b
      → IsArmed N (left_by (run_rules N ctx rules t b))
  unfolding run_rules
  run_rules-IsArmed ctx [] t b ks h = h
  run_rules-IsArmed ctx (rule ∷ rules) t b (k, ks) h =
      go (rule ctx b) refl (k ctx b h) (λ t b. run_rules-IsArmed ctx rules t b ks)
    where
      go :
          (found : Outcome RuleError (CircuitBreaker N) (Option RiskVerdict × CircuitBreaker N))
          → rule ctx b ≡ found
          → IsArmed N (left_by (rule ctx b))
          → ((t : Tally) (b : CircuitBreaker N)
              → IsArmed N b
              → IsArmed N (left_by (run_rules N ctx rules t b)))
          → IsArmed N (left_by (run_rules N ctx (rule ∷ rules) t b))
      go (raised x c) e armed ih = rw (e, ◌>>=◌) (rw e at armed)
      go (done (none, c)) e armed ih = rw (e, ◌>>=◌) (ih t c (rw e at armed))
      go (done (some v, c)) e armed ih = elim (Bool-cases (is_reject v.decision)) [
        | inl r ↦ rw (e, ◌>>=◌) (rw r (rw e at armed))
        | inr r ↦ rw (e, ◌>>=◌) (rw r (ih (note v t) c (rw e at armed)))
      ]
