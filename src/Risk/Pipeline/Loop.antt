-- ===== src/Risk/Pipeline/Loop.antt =====
-- The loop over the rules in `RiskPipeline.evaluate`
-- (backend/risk-engine/src/aqros_risk_engine/domain/pipeline.py).
use mathlib.Core.Path.{subst}
use aqros.Shared.{
  ◌≤◌, ◌≡◌, ◌≢◌, refl, sym, ◌∙◌, ◌⊎◌, inl, inr, true, false, Option, none, some, List, [], ◌∷◌,
  ◌++◌, arith, All, Any, Bool-cases,
}
use aqros.Shared.Action.{Outcome, done, raised, ◌>>=◌}
use aqros.Risk.Numbers.{Numbers, RuleError}
use aqros.Risk.Models.{RiskDecision, reject, level_value, RiskVerdict}
use aqros.Risk.Breaker.{CircuitBreaker}
use aqros.Risk.Rules.Context.{EvaluationContext, Rule}
use aqros.Risk.Pipeline.{Tally, note, is_reject, run_rules}

-- No verdict, or one that does not reject.
abbrev pub Lenient : Option RiskVerdict → Type 0
Lenient none = Unit
Lenient (some v) = v.decision ≢ reject

reject_of : (d : RiskDecision) → is_reject d ≡ true → d ≡ reject
reject_of d h = ground arith

lenient_of : (d : RiskDecision) → is_reject d ≡ false → d ≢ reject
lenient_of d h = ground arith

is_reject-note_lenient :
    (v : RiskVerdict) (t : Tally)
    → is_reject v.decision ≡ false
    → t.decision ≢ reject
    → (note v t).decision ≢ reject
unfolding note
is_reject-note_lenient v t h n = ground arith

is_reject-note :
    (v : RiskVerdict) (t : Tally) → is_reject v.decision ≡ true → (note v t).decision ≡ reject
unfolding note
is_reject-note v t h = ground arith

All-snoc {ℓ} :
    {A : Type 0} (P : A → Type ℓ) (xs : List A) (x : A) → All P xs → P x → All P (xs ++ x ∷ [])
All-snoc P [] x h p = (p, tt)
All-snoc P (y ∷ ys) x h p = (h.0, All-snoc P ys x h.1 p)

All-map {ℓ} :
    {A : Type 0} (P Q : A → Type ℓ) (f : (a : A) → P a → Q a) (xs : List A) → All P xs → All Q xs
All-map P Q f [] h = tt
All-map P Q f (x ∷ xs) h = (f x h.0, All-map P Q f xs h.1)

-- The level of the tally is at least that of each verdict that was gathered.
abbrev pub LevelCovers : Tally → Type 0
LevelCovers t = All (λ v. level_value v.risk_level ≤ level_value t.risk_level) t.rule_results

level-le-note :
    (v : RiskVerdict) (t : Tally)
    → (level_value t.risk_level ≤ level_value (note v t).risk_level)
      × (level_value v.risk_level ≤ level_value (note v t).risk_level)
unfolding note
level-le-note v t = ground arith

results-note : (v : RiskVerdict) (t : Tally) → (note v t).rule_results ≡ t.rule_results ++ v ∷ []
unfolding note
results-note v t = ground arith

note-LevelCovers : (v : RiskVerdict) (t : Tally) → LevelCovers t → LevelCovers (note v t)
note-LevelCovers v t h = rw (results-note v t) (
    All-snoc (λ w. level_value w.risk_level ≤ level_value (note v t).risk_level) t.rule_results v
      (All-map (λ w. level_value w.risk_level ≤ level_value t.risk_level)
        (λ w. level_value w.risk_level ≤ level_value (note v t).risk_level)
        (λ w p. omega (arith, (level-le-note v t).0, p)) t.rule_results h)
      (level-le-note v t).1)

module _ (N : Numbers) (ctx : EvaluationContext N) where
  -- At some state of the breaker the rule returned, and did not reject.
  abbrev pub Passes : Rule N → Type 0
  Passes rule =
      (b b' : CircuitBreaker N) × (v : Option RiskVerdict) × (rule ctx b ≡ done (v, b')) × Lenient v

  -- At some state of the breaker the rule rejected.
  abbrev pub Rejects : Rule N → Type 0
  Rejects rule =
      (b b' : CircuitBreaker N) × (v : RiskVerdict) × (rule ctx b ≡ done (some v, b'))
      × (v.decision ≡ reject)

  -- What the loop comes to: all rules passed, or one rejected, and the level covers the verdicts.
  pub record IsOutcome (rules : List (Rule N)) (t : Tally) : Type 0 where
    pub verdict :
        ((t.decision ≢ reject) × All Passes rules) ⊎ ((t.decision ≡ reject) × Any Rejects rules)
    pub level : LevelCovers t

  module _ (rule : Rule N) (rules : List (Rule N)) (t : Tally) (b c : CircuitBreaker N) where
    pub run_raised :
        (e : RuleError) → rule ctx b ≡ raised e c → run_rules N ctx (rule ∷ rules) t b ≡ raised e c
    unfolding run_rules
    run_raised e f = rw (f, ◌>>=◌)

    pub run_none :
        rule ctx b ≡ done (none, c) → run_rules N ctx (rule ∷ rules) t b ≡ run_rules N ctx rules t c
    unfolding run_rules
    run_none f = rw (f, ◌>>=◌)

    pub run_rejected :
        (v : RiskVerdict)
        → rule ctx b ≡ done (some v, c)
        → is_reject v.decision ≡ true
        → run_rules N ctx (rule ∷ rules) t b ≡ done (note v t, c)
    unfolding run_rules
    run_rejected v f r = rw (f, ◌>>=◌) (rw r)

    pub run_lenient :
        (v : RiskVerdict)
        → rule ctx b ≡ done (some v, c)
        → is_reject v.decision ≡ false
        → run_rules N ctx (rule ∷ rules) t b ≡ run_rules N ctx rules (note v t) c
    unfolding run_rules
    run_lenient v f r = rw (f, ◌>>=◌) (rw r)

  tally_of :
      {t t' : Tally} {b b' : CircuitBreaker N}
      → ◌≡◌ {A = Outcome RuleError (CircuitBreaker N) (Tally × CircuitBreaker N)}
          (done (t, b))
          (done (t', b'))
      → t ≡ t'
  tally_of e = cc

  IsOutcome-pass :
      (rule : Rule N) (rules : List (Rule N)) (t : Tally)
      → Passes rule
      → IsOutcome rules t
      → IsOutcome (rule ∷ rules) t
  IsOutcome-pass rule rules t p o = record {
    verdict = elim o.verdict [ inl (n, ps) ↦ inl (n, (p, ps)) | inr (r, any) ↦ inr (r, inr any) ];
    level = o.level;
  }

  -- When the loop returns, either every rule was asked and none rejected, or some rule rejected and
  -- the decision is to reject; the risk level is at least that of every verdict gathered.
  pub run_rules-IsOutcome :
      (rules : List (Rule N)) (t t' : Tally) (b b' : CircuitBreaker N)
      → t.decision ≢ reject
      → LevelCovers t
      → run_rules N ctx rules t b ≡ done (t', b')
      → IsOutcome rules t'
  unfolding run_rules
  run_rules-IsOutcome [] t t' b b' n l h =
      subst (IsOutcome []) (tally_of h) (record { verdict = inl (n, tt); level = l })
  run_rules-IsOutcome (rule ∷ rules) t t' b b' n l h =
      go (rule ctx b) refl (λ t b. run_rules-IsOutcome rules t t' b b')
    where
      go :
          (found : Outcome RuleError (CircuitBreaker N) (Option RiskVerdict × CircuitBreaker N))
          → rule ctx b ≡ found
          → ((t : Tally) (b : CircuitBreaker N)
              → t.decision ≢ reject
              → LevelCovers t
              → run_rules N ctx rules t b ≡ done (t', b')
              → IsOutcome rules t')
          → IsOutcome (rule ∷ rules) t'
      go (raised e c) f ih = cc (run_raised rule rules t b c e f)
      go (done (none, c)) f ih =
          IsOutcome-pass rule rules t' (b, c, none, f, tt)
            (ih t c n l (sym (run_none rule rules t b c f) ∙ h))
      go (done (some v, c)) f ih = elim (Bool-cases (is_reject v.decision)) [
        | inl r ↦
            subst (IsOutcome (rule ∷ rules))
              (tally_of (sym (run_rejected rule rules t b c v f r) ∙ h))
              (record {
                verdict = inr (is_reject-note v t r, inl (b, c, v, f, reject_of v.decision r));
                level = note-LevelCovers v t l;
              })
        | inr k ↦
            IsOutcome-pass rule rules t' (b, c, some v, f, lenient_of v.decision k)
              (ih (note v t) c (is_reject-note_lenient v t k n) (note-LevelCovers v t l)
                (sym (run_lenient rule rules t b c v f k) ∙ h))
      ]
