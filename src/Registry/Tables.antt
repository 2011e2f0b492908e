-- ===== src/Registry/Tables.antt =====
-- What the changes of the tables of the model registry (adapters/repository.py of
-- backend/model-registry) do to the versions in production.
use aqros.Shared.{
  ℕ, ◌+◌, String, ◌≡◌, refl, inl, inr, true, false, ◌&&◌, none, some, List, [], ◌∷◌, length,
  if◌then◌else◌, arith, Bool-cases, some-injective,
}
use aqros.Shared.Text.{str_eq, eq_iff}
use aqros.Registry.Lifecycle.{LifecycleState}
use aqros.Registry.Store.{
  ValidationEvidence, ModelVersion, has_key, get, set_lifecycle_state, attach_validation_evidence,
  is_production, production_rows,
}

head_injective :
    {A : Type 0} {x y : A} {xs ys : List A} → ◌≡◌ {A = List A} (x ∷ xs) (y ∷ ys) → x ≡ y
head_injective h = ground arith

-- One, if a version of the model `name` in the state is one of the model `k` in production.
abbrev pub occupies : String → String → LifecycleState → ℕ
occupies k name state = if str_eq name k && is_production state then 1 else 0

module _ {Pinned : Type 0} where
  -- The number of versions of a model that are in production.
  abbrev pub production_count : String → List (ModelVersion Pinned) → ℕ
  production_count name ms = length (production_rows name ms)

  -- No two versions have the same key.
  abbrev pub IsKeyed : List (ModelVersion Pinned) → Type 0
  IsKeyed [] = Unit
  IsKeyed (m ∷ ms) = (get m.model_name m.version ms ≡ none) × IsKeyed ms

  pub production_count-cons :
      (k : String) (m : ModelVersion Pinned) (ms : List (ModelVersion Pinned))
      → production_count k (m ∷ ms)
        ≡ occupies k m.model_name m.lifecycle_state + production_count k ms
  unfolding production_rows
  production_count-cons k m ms =
      elim (Bool-cases (str_eq m.model_name k && is_production m.lifecycle_state)) [
        | inl e ↦ rw e (omega arith)
        | inr e ↦ rw e (omega arith)
      ]

  pub has_key-name :
      (name : String) (v : ℕ) (m : ModelVersion Pinned)
      → has_key name v m ≡ true
      → m.model_name ≡ name
  has_key-name name v m e = (eq_iff m.model_name name).0 (ground arith)

  -- Setting the state of a version takes it from one count and adds it to the other.
  pub production_count-set_lifecycle_state :
      (k name : String) (v : ℕ) (state : LifecycleState) (ms : List (ModelVersion Pinned))
      (m : ModelVersion Pinned)
      → get name v ms ≡ some m
      → production_count k (set_lifecycle_state name v state ms) + occupies k name m.lifecycle_state
        ≡ production_count k ms + occupies k name state
  unfolding get set_lifecycle_state
  production_count-set_lifecycle_state k name v state [] m h = ground arith
  production_count-set_lifecycle_state k name v state (n ∷ ms) m h =
      elim (Bool-cases (has_key name v n)) [
        | inl e ↦ rw e (
            rw (← has_key-name name v n e) (
              rw (← some-injective (rw e at h)) (
                omega (
                  arith,
                  production_count-cons k n ms,
                  production_count-cons k (record n { lifecycle_state = state }) ms,
                ))))
        | inr e ↦ rw e (
            omega (
              arith,
              production_count-cons k n ms,
              production_count-cons k n (set_lifecycle_state name v state ms),
              production_count-set_lifecycle_state k name v state ms m (rw e at h),
            ))
      ]

  -- A key that no version has.
  pub get-cons_none :
      (a : String) (w : ℕ) (m : ModelVersion Pinned) (ms : List (ModelVersion Pinned))
      → get a w (m ∷ ms) ≡ none
      → (has_key a w m ≡ false) × (get a w ms ≡ none)
  unfolding get
  get-cons_none a w m ms h = elim (Bool-cases (has_key a w m)) [
    | inl e ↦ ground (arith, rw e at h)
    | inr e ↦ (e, rw e at h)
  ]

  pub get-set_lifecycle_state :
      (a name : String) (w v : ℕ) (state : LifecycleState) (ms : List (ModelVersion Pinned))
      → get a w ms ≡ none
      → get a w (set_lifecycle_state name v state ms) ≡ none
  unfolding get set_lifecycle_state
  get-set_lifecycle_state a name w v state [] h = refl
  get-set_lifecycle_state a name w v state (m ∷ ms) h =
      let (f, g) = get-cons_none a w m ms h in
      elim (Bool-cases (has_key name v m)) [
        | inl e ↦ rw e (rw f g)
        | inr e ↦ rw e (rw f (get-set_lifecycle_state a name w v state ms g))
      ]

  pub set_lifecycle_state-IsKeyed :
      (name : String) (v : ℕ) (state : LifecycleState) (ms : List (ModelVersion Pinned))
      → IsKeyed ms
      → IsKeyed (set_lifecycle_state name v state ms)
  unfolding set_lifecycle_state
  set_lifecycle_state-IsKeyed name v state [] h = tt
  set_lifecycle_state-IsKeyed name v state (m ∷ ms) (n, h) = elim (Bool-cases (has_key name v m)) [
    | inl e ↦ rw e (n, h)
    | inr e ↦ rw e (
      get-set_lifecycle_state m.model_name name m.version v state ms n,
      set_lifecycle_state-IsKeyed name v state ms h,
    )
  ]

  pub get-attach_validation_evidence :
      (a name : String) (w v : ℕ) (e : ValidationEvidence) (ms : List (ModelVersion Pinned))
      → get a w ms ≡ none
      → get a w (attach_validation_evidence name v e ms) ≡ none
  unfolding get attach_validation_evidence
  get-attach_validation_evidence a name w v e [] h = refl
  get-attach_validation_evidence a name w v e (m ∷ ms) h =
      let (f, g) = get-cons_none a w m ms h in
      elim (Bool-cases (has_key name v m)) [
        | inl t ↦ rw t (rw f g)
        | inr t ↦ rw t (rw f (get-attach_validation_evidence a name w v e ms g))
      ]

  pub attach_validation_evidence-IsKeyed :
      (name : String) (v : ℕ) (e : ValidationEvidence) (ms : List (ModelVersion Pinned))
      → IsKeyed ms
      → IsKeyed (attach_validation_evidence name v e ms)
  unfolding attach_validation_evidence
  attach_validation_evidence-IsKeyed name v e [] h = tt
  attach_validation_evidence-IsKeyed name v e (m ∷ ms) (n, h) =
      elim (Bool-cases (has_key name v m)) [
        | inl t ↦ rw t (n, h)
        | inr t ↦ rw t (
          get-attach_validation_evidence m.model_name name m.version v e ms n,
          attach_validation_evidence-IsKeyed name v e ms h,
        )
      ]

  -- Evidence changes no count, and the version that it is attached to keeps its state.
  pub production_count-attach_validation_evidence :
      (k name : String) (v : ℕ) (e : ValidationEvidence) (ms : List (ModelVersion Pinned))
      → production_count k (attach_validation_evidence name v e ms) ≡ production_count k ms
  unfolding attach_validation_evidence
  production_count-attach_validation_evidence k name v e [] = refl
  production_count-attach_validation_evidence k name v e (m ∷ ms) =
      elim (Bool-cases (has_key name v m)) [
        | inl t ↦ rw t (
            omega (
              arith,
              production_count-cons k m ms,
              production_count-cons k (record m { validation_evidence = some e }) ms,
            ))
        | inr t ↦ rw t (
            omega (
              arith,
              production_count-cons k m ms,
              production_count-cons k m (attach_validation_evidence name v e ms),
              production_count-attach_validation_evidence k name v e ms,
            ))
      ]

  pub get-attach_found :
      (name : String) (v : ℕ) (e : ValidationEvidence) (ms : List (ModelVersion Pinned))
      (m : ModelVersion Pinned)
      → get name v ms ≡ some m
      → get name v (attach_validation_evidence name v e ms)
        ≡ some (record m { validation_evidence = some e })
  unfolding get attach_validation_evidence
  get-attach_found name v e [] m h = ground arith
  get-attach_found name v e (n ∷ ms) m h = elim (Bool-cases (has_key name v n)) [
    | inl t ↦ rw t (rw t (rw (← some-injective (rw t at h)) refl))
    | inr t ↦ rw t (rw t (get-attach_found name v e ms m (rw t at h)))
  ]

  -- The version that is found has the key.
  pub get-has_key :
      (name : String) (v : ℕ) (ms : List (ModelVersion Pinned)) (m : ModelVersion Pinned)
      → get name v ms ≡ some m
      → (m.model_name ≡ name) × (m.version ≡ v)
  unfolding get
  get-has_key name v [] m h = ground arith
  get-has_key name v (n ∷ ms) m h = elim (Bool-cases (has_key name v n)) [
    | inl t ↦ rw (← some-injective (rw t at h)) (has_key-name name v n t, ground arith)
    | inr t ↦ get-has_key name v ms m (rw t at h)
  ]

  -- A key that a version has is not found after it.
  absent :
      (n : ModelVersion Pinned) (name : String) (v : ℕ) (ms : List (ModelVersion Pinned))
      (m : ModelVersion Pinned)
      → has_key name v n ≡ true
      → get n.model_name n.version ms ≡ none
      → get name v ms ≡ some m
      → ⊥
  absent n name v ms m q u g =
      let same : n.version ≡ v = ground arith in
      let gone : get name v ms ≡ none = rw (← same) (rw (← has_key-name name v n q) u) in
      ground (arith, gone, g)

  -- The first version of a model in production is found under its key.
  pub get-production_rows :
      (name : String) (ms : List (ModelVersion Pinned)) (m : ModelVersion Pinned)
      (rest : List (ModelVersion Pinned))
      → IsKeyed ms
      → production_rows name ms ≡ m ∷ rest
      → (get name m.version ms ≡ some m) × (is_production m.lifecycle_state ≡ true)
  unfolding get production_rows
  get-production_rows name [] m rest h e = ground arith
  get-production_rows name (n ∷ ms) m rest (u, h) e =
      elim (Bool-cases (str_eq n.model_name name && is_production n.lifecycle_state)) [
        | inl t ↦
            let key : has_key name n.version n ≡ true = ground arith in
            rw (← head_injective (rw t at e)) (rw key refl, ground arith)
        | inr t ↦
            let (g, p) = get-production_rows name ms m rest h (rw t at e) in
            elim (Bool-cases (has_key name m.version n)) [
              | inl q ↦ elim (absent n name m.version ms m q u g) [ ]
              | inr q ↦ (rw q g, p)
            ]
      ]
