-- ===== src/Registry/Soundness.antt =====
-- Each change of a version that the service makes (domain/services.py of backend/model-registry)
-- leaves at most one version of each model in production, with a mandate.
use aqros.Shared.{
  ℕ, ◌+◌, String, ◌≡◌, ◌⊎◌, ◌∙◌, refl, inl, inr, true, false, none, some, List, [], ◌∷◌, ◌++◌,
  arith, All, Any, All-map, All-append, Bool-cases, some-injective,
}
use aqros.Shared.Text.{str_eq, eq_iff}
use aqros.Registry.Lifecycle.{LifecycleState}
use aqros.Registry.Store.{
  ValidationEvidence, PromotionRequest, ModelVersion, has_key, get, set_lifecycle_state,
  attach_validation_evidence, is_production, production_rows,
}
use aqros.Registry.Tables.{
  occupies, production_count, IsKeyed, production_count-cons, production_count-set_lifecycle_state,
  set_lifecycle_state-IsKeyed, attach_validation_evidence-IsKeyed,
  production_count-attach_validation_evidence, get-has_key, get-cons_none,
}
use aqros.Registry.Mandates.{IsMandate, IsPromotedAs, IsPromoted, IsSound}

module _ {Pinned : Type 0} where
  IsPromotedAs-map :
      (rs qs : List PromotionRequest) (m : ModelVersion Pinned) (s : LifecycleState)
      → ((name : String) (v : ℕ) → Any (IsMandate name v) rs → Any (IsMandate name v) qs)
      → IsPromotedAs rs m s
      → IsPromotedAs qs m s
  IsPromotedAs-map rs qs m LifecycleState.production f h = f m.model_name m.version h
  IsPromotedAs-map rs qs m LifecycleState.registered f h = tt
  IsPromotedAs-map rs qs m LifecycleState.validated f h = tt
  IsPromotedAs-map rs qs m LifecycleState.staging f h = tt
  IsPromotedAs-map rs qs m LifecycleState.deprecated f h = tt
  IsPromotedAs-map rs qs m LifecycleState.archived f h = tt

  -- Requests may change as long as the mandates stay.
  pub requests-IsSound :
      (ms : List (ModelVersion Pinned)) (rs qs : List PromotionRequest)
      → ((name : String) (v : ℕ) → Any (IsMandate name v) rs → Any (IsMandate name v) qs)
      → IsSound ms rs
      → IsSound ms qs
  requests-IsSound ms rs qs f (k, c, p) =
      (k, c, All-map (λ m h. IsPromotedAs-map rs qs m m.lifecycle_state f h) ms p)

  set_lifecycle_state-All :
      (rs : List PromotionRequest) (name : String) (v : ℕ) (s : LifecycleState)
      (ms : List (ModelVersion Pinned)) (m : ModelVersion Pinned)
      → get name v ms ≡ some m
      → IsPromotedAs rs m s
      → All (IsPromoted rs) ms
      → All (IsPromoted rs) (set_lifecycle_state name v s ms)
  unfolding get set_lifecycle_state
  set_lifecycle_state-All rs name v s [] m h p all = tt
  set_lifecycle_state-All rs name v s (n ∷ ms) m h p (q, all) =
      elim (Bool-cases (has_key name v n)) [
        | inl e ↦ rw e (promoted s (rw (some-injective (rw e at h)) p), all)
        | inr e ↦ rw e (q, set_lifecycle_state-All rs name v s ms m (rw e at h) p all)
      ]
    where
      promoted :
          (t : LifecycleState)
          → IsPromotedAs rs n t
          → IsPromotedAs rs (record n { lifecycle_state = s }) t
      promoted LifecycleState.production h = h
      promoted LifecycleState.registered h = tt
      promoted LifecycleState.validated h = tt
      promoted LifecycleState.staging h = tt
      promoted LifecycleState.deprecated h = tt
      promoted LifecycleState.archived h = tt

  -- Into a state other than production.
  pub leave-IsSound :
      (rs : List PromotionRequest) (name : String) (v : ℕ) (s : LifecycleState)
      (ms : List (ModelVersion Pinned)) (m : ModelVersion Pinned)
      → get name v ms ≡ some m
      → is_production s ≡ false
      → IsSound ms rs
      → IsSound (set_lifecycle_state name v s ms) rs
  leave-IsSound rs name v s ms m h e (k, c, p) = (
    set_lifecycle_state-IsKeyed name v s ms k,
    λ a. ground (arith, production_count-set_lifecycle_state a name v s ms m h, c a),
    set_lifecycle_state-All rs name v s ms m h (idle s e) p,
  )
    where
      idle : (t : LifecycleState) → is_production t ≡ false → IsPromotedAs rs m t
      idle LifecycleState.production h = ground arith
      idle LifecycleState.registered h = tt
      idle LifecycleState.validated h = tt
      idle LifecycleState.staging h = tt
      idle LifecycleState.deprecated h = tt
      idle LifecycleState.archived h = tt

  -- Into production, if no other version of the model is there.
  pub enter-IsSound :
      (rs : List PromotionRequest) (name : String) (v : ℕ) (ms : List (ModelVersion Pinned))
      (m : ModelVersion Pinned)
      → get name v ms ≡ some m
      → (production_count name ms ≡ 0) ⊎ (is_production m.lifecycle_state ≡ true)
      → Any (IsMandate name v) rs
      → IsSound ms rs
      → IsSound (set_lifecycle_state name v LifecycleState.production ms) rs
  enter-IsSound rs name v ms m h free mandate (k, c, p) = (
    set_lifecycle_state-IsKeyed name v LifecycleState.production ms k,
    λ a. elim (Bool-cases (str_eq name a)) [
      | inr t ↦ ground (
        arith,
        production_count-set_lifecycle_state a name v LifecycleState.production ms m h,
        c a,
      )
      | inl t ↦ ground (
        arith,
        production_count-set_lifecycle_state a name v LifecycleState.production ms m h,
        c a,
        rw ((eq_iff name a).0 t) at free,
      )
    ],
    set_lifecycle_state-All rs name v LifecycleState.production ms m h
        (rw ((get-has_key name v ms m h).0, (get-has_key name v ms m h).1) mandate) p,
  )

  attach-All :
      (rs : List PromotionRequest) (name : String) (v : ℕ) (e : ValidationEvidence)
      (ms : List (ModelVersion Pinned))
      → All (IsPromoted rs) ms
      → All (IsPromoted rs) (attach_validation_evidence name v e ms)
  unfolding attach_validation_evidence
  attach-All rs name v e [] all = tt
  attach-All rs name v e (m ∷ ms) (q, all) = elim (Bool-cases (has_key name v m)) [
    | inl t ↦ rw t (same m.lifecycle_state q, all)
    | inr t ↦ rw t (q, attach-All rs name v e ms all)
  ]
    where
      same :
          (s : LifecycleState)
          → IsPromotedAs rs m s
          → IsPromotedAs rs (record m { validation_evidence = some e }) s
      same LifecycleState.production h = h
      same LifecycleState.registered h = tt
      same LifecycleState.validated h = tt
      same LifecycleState.staging h = tt
      same LifecycleState.deprecated h = tt
      same LifecycleState.archived h = tt

  pub attach-IsSound :
      (rs : List PromotionRequest) (name : String) (v : ℕ) (e : ValidationEvidence)
      (ms : List (ModelVersion Pinned))
      → IsSound ms rs
      → IsSound (attach_validation_evidence name v e ms) rs
  attach-IsSound rs name v e ms (k, c, p) = (
    attach_validation_evidence-IsKeyed name v e ms k,
    λ a. rw (production_count-attach_validation_evidence a name v e ms) (c a),
    attach-All rs name v e ms p,
  )

  has_key-sym :
      (m n : ModelVersion Pinned)
      → has_key m.model_name m.version n ≡ false
      → has_key n.model_name n.version m ≡ false
  has_key-sym m n h =
      ground (arith, (eq_iff m.model_name n.model_name), (eq_iff n.model_name m.model_name))

  get-append :
      (a : String) (w : ℕ) (ms : List (ModelVersion Pinned)) (m : ModelVersion Pinned)
      → get a w ms ≡ none
      → has_key a w m ≡ false
      → get a w (ms ++ m ∷ []) ≡ none
  unfolding get
  get-append a w [] m h e = rw e refl
  get-append a w (n ∷ ms) m h e =
      let (f, g) = get-cons_none a w n ms h in rw f (get-append a w ms m g e)

  append-IsKeyed :
      (ms : List (ModelVersion Pinned)) (m : ModelVersion Pinned)
      → get m.model_name m.version ms ≡ none
      → IsKeyed ms
      → IsKeyed (ms ++ m ∷ [])
  unfolding get
  append-IsKeyed [] m h k = (refl, tt)
  append-IsKeyed (n ∷ ms) m h (u, k) =
      let (f, g) = get-cons_none m.model_name m.version n ms h in
      (get-append n.model_name n.version ms m u (has_key-sym m n f), append-IsKeyed ms m g k)

  production_count-append :
      (a : String) (ms : List (ModelVersion Pinned)) (m : ModelVersion Pinned)
      → production_count a (ms ++ m ∷ [])
        ≡ production_count a ms + occupies a m.model_name m.lifecycle_state
  unfolding production_rows
  production_count-append a [] m = production_count-cons a m [] ∙ ground arith
  production_count-append a (n ∷ ms) m = omega (
    arith,
    production_count-cons a n ms,
    production_count-cons a n (ms ++ m ∷ []),
    production_count-append a ms m,
  )

  -- A new version, which is not in production.
  pub register-IsSound :
      (rs : List PromotionRequest) (ms : List (ModelVersion Pinned)) (m : ModelVersion Pinned)
      → get m.model_name m.version ms ≡ none
      → m.lifecycle_state ≡ LifecycleState.registered
      → IsSound ms rs
      → IsSound (ms ++ m ∷ []) rs
  register-IsSound rs ms m h e (k, c, p) = (
    append-IsKeyed ms m h k,
    λ a. ground (arith, production_count-append a ms m, c a),
    All-append (IsPromoted rs) ms (m ∷ []) p (rw e tt, tt),
  )
