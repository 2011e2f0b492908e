-- ===== src/Registry/Stale.antt =====
-- An approved request of the model registry (domain/services.py of backend/model-registry) is applied
-- to its version in whatever state that is by then.
use aqros.Shared.{
  ℕ, String, ◌≡◌, ◌∙◌, ap, refl, inl, inr, Bool, true, false, Option, some, List, [], ◌∷◌, ◌++◌,
  arith, Bool-cases, some-injective,
}
use aqros.Shared.Action.{after}
use aqros.Registry.Lifecycle.{
  LifecycleState, ApprovalState, Approval, GateKind, PrincipalKind, is_approve, gate_for,
}
use aqros.Registry.Store.{
  PromotionRequest, ModelVersion, Tables, has_key, get, set_lifecycle_state, is_production,
  get_request,
}
use aqros.Registry.Service.{any_approve, gate_satisfied, apply_transition}
use aqros.Registry.Approving.{is_pending, decide, approve}
use aqros.Registry.Tables.{get-has_key}

any_approve-append :
    (approvals : List Approval) (a : Approval)
    → is_approve a.decision ≡ true
    → any_approve (approvals ++ a ∷ []) ≡ true
any_approve-append [] a h = rw h refl
any_approve-append (b ∷ approvals) a h = ground (arith, any_approve-append approvals a h)

single_gate :
    (from_state to_state : LifecycleState) (is_rollback : Bool)
    → gate_for from_state to_state is_rollback ≡ some GateKind.single_approval
    → is_production to_state ≡ false
single_gate from_state to_state is_rollback h = ground arith

module _ {Pinned : Type 0} where
  get-set_lifecycle_found :
      (name : String) (v : ℕ) (s : LifecycleState) (ms : List (ModelVersion Pinned))
      (m : ModelVersion Pinned)
      → get name v ms ≡ some m
      → get name v (set_lifecycle_state name v s ms) ≡ some (record m { lifecycle_state = s })
  unfolding get set_lifecycle_state
  get-set_lifecycle_found name v s [] m h = ground arith
  get-set_lifecycle_found name v s (n ∷ ms) m h = elim (Bool-cases (has_key name v n)) [
    | inl t ↦ rw t (rw t (rw (← some-injective (rw t at h)) refl))
    | inr t ↦ rw t (rw t (get-set_lifecycle_found name v s ms m (rw t at h)))
  ]

  decide_single :
      (id : ℕ) (r : PromotionRequest) (a : Approval) (correlation_id : String) (now : ℕ)
      (t : Tables Pinned) (m : ModelVersion Pinned)
      → is_production r.to_state ≡ false
      → is_approve a.decision ≡ true
      → get r.model_name r.version t.versions ≡ some m
      → get r.model_name r.version
          (after (decide (some GateKind.single_approval) id r a correlation_id now t)).versions
        ≡ some (record m { lifecycle_state = r.to_state })
  unfolding gate_satisfied apply_transition
  decide_single id r a correlation_id now t m p d f =
      let (x, y) = get-has_key r.model_name r.version t.versions m f in
      rw p (
        rw (any_approve-append r.approvals a d) (
          rw f (
            rw p (
              ap
                (λ k.
                  get r.model_name r.version
                    (set_lifecycle_state k m.version r.to_state t.versions))
                x
              ∙ ap
                  (λ w.
                    get r.model_name r.version
                      (set_lifecycle_state r.model_name w r.to_state t.versions))
                  y
              ∙ get-set_lifecycle_found r.model_name r.version r.to_state t.versions m f))))

  -- A pending request that one approval settles moves its version into the state that it asks for as
  -- soon as it is approved, in whatever state the version is by then.
  pub approve_lem :
      (id : ℕ) (approver : String) (kind : PrincipalKind) (correlation_id : String)
      (reason : Option String) (now : ℕ) (t : Tables Pinned) (r : PromotionRequest)
      (m : ModelVersion Pinned)
      → get_request id t.requests ≡ some r
      → r.approval_state ≡ ApprovalState.pending
      → gate_for r.from_state r.to_state r.is_rollback ≡ some GateKind.single_approval
      → get r.model_name r.version t.versions ≡ some m
      → get r.model_name r.version
          (after (approve id approver kind correlation_id reason now t)).versions
        ≡ some (record m { lifecycle_state = r.to_state })
  unfolding approve
  approve_lem id approver kind correlation_id reason now t r m h p g f =
      rw h (elim (Bool-cases (is_pending r.approval_state)) [
        | inr n ↦ ground (arith, rw p at n)
        | inl y ↦ rw y (
            rw g (
              decide_single id r _ correlation_id now t m
                (single_gate r.from_state r.to_state r.is_rollback g) refl f))
      ])
