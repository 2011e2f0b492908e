-- ===== src/Registry/Promotion.antt =====
-- Whatever calls are made (domain/services.py of backend/model-registry), at most one version of each
-- model is in production, and four eyes put it there.
use mathlib.Core.Path.{subst}
use aqros.Shared.{
  ℕ, ◌≤◌, String, ◌≡◌, ◌⊎◌, ◌∙◌, ap, refl, sym, inl, inr, Bool, true, false, not, ◌&&◌, Option,
  none, some, List, [], ◌∷◌, ◌++◌, ◌==◌, arith, All, Any, Bool-cases, ==-cases, some-injective,
}
use aqros.Shared.Text.{eq_iff}
use aqros.Shared.Action.{after}
use aqros.Registry.Lifecycle.{LifecycleState, ApprovalState, Approval, GateKind, is_human, gate_for}
use aqros.Registry.Store.{
  PromotionRequest, ModelVersion, Tables, has_key, get, set_lifecycle_state, is_production,
  production_rows, get_request, add_approval, set_request_state,
}
use aqros.Registry.Service.{approvers_of, gate_satisfied, register_version, apply_transition}
use aqros.Registry.Approving.{is_pending, promote, apply_approved, decide, approve}
use aqros.Registry.Calls.{
  Call, register_call, request_call, approve_call, reject_call, rollback_call, call_result, run,
}
use aqros.Registry.Gates.{gate_for-production}
use aqros.Registry.Tables.{
  production_count, get-has_key, get-production_rows, production_count-set_lifecycle_state,
}
use aqros.Registry.Mandates.{
  IsMandate, IsPromotedAs, IsPromoted, IsSound, Any-add_approval, Any-set_request_state,
  get_request-add_approval, Any-settled,
}
use aqros.Registry.Soundness.{requests-IsSound, leave-IsSound, enter-IsSound}
use aqros.Registry.Steps.{
  IsSoundTables, with_pending-IsSound, get_self, create_model_version-IsSound,
  request_transition-IsSound, rollback-IsSound, reject-IsSound,
}

-- A request for production that is pending has the gate of four eyes; once that is passed and the
-- request settled, it is a mandate.
settled-IsMandate :
    (id : ℕ) (a : Approval) (rs : List PromotionRequest) (r : PromotionRequest) (gate : GateKind)
    → get_request id rs ≡ some r
    → r.to_state ≡ LifecycleState.production
    → gate ≡ GateKind.four_eyes
    → gate_satisfied gate r.requester (r.approvals ++ a ∷ []) ≡ true
    → Any
        (IsMandate r.model_name r.version)
        (set_request_state id ApprovalState.approved (add_approval id a rs))
unfolding gate_satisfied
settled-IsMandate id a rs r gate h g e sat =
    Any-settled r.model_name r.version id (add_approval id a rs)
      (record r { approvals = r.approvals ++ a ∷ [] }) (get_request-add_approval id a rs r h)
      (refl, refl, g, refl, rw e at sat)

production_of : (s : LifecycleState) → is_production s ≡ true → s ≡ LifecycleState.production
production_of s p = ground arith

production_gate :
    (from_state to_state : LifecycleState) (is_rollback : Bool) (gate : GateKind)
    → to_state ≡ LifecycleState.production
    → gate_for from_state to_state is_rollback ≡ some gate
    → gate ≡ GateKind.four_eyes
production_gate from_state to_state is_rollback gate e g =
    gate_for-production from_state is_rollback gate (rw e at g)

module _ {Pinned : Type 0} where
  get-set_other :
      (a name : String) (w v : ℕ) (state : LifecycleState) (ms : List (ModelVersion Pinned))
      (m : ModelVersion Pinned)
      → get a w ms ≡ some m
      → (v == w) ≡ false
      → get a w (set_lifecycle_state name v state ms) ≡ some m
  unfolding get set_lifecycle_state
  get-set_other a name w v state [] m h d = ground arith
  get-set_other a name w v state (n ∷ ms) m h d = elim (Bool-cases (has_key name v n)) [
    | inl e ↦ let other : has_key a w n ≡ false = ground arith in rw e (rw other (rw other at h))
    | inr e ↦ rw e (elim (Bool-cases (has_key a w n)) [
      | inl q ↦ rw q (rw q at h)
      | inr q ↦ rw q (get-set_other a name w v state ms m (rw q at h) d)
    ])
  ]

  -- What stands when the gate is passed: the version, and the mandate to promote it.
  abbrev IsReady : PromotionRequest → ModelVersion Pinned → Tables Pinned → Type 0
  IsReady r m t =
      (get r.model_name r.version t.versions ≡ some m)
      × Any (IsMandate r.model_name r.version) t.requests
      × IsSoundTables t

  -- The target enters production, if no other version of its model is there.
  enter_ready :
      (r : PromotionRequest) (m : ModelVersion Pinned) (ms : List (ModelVersion Pinned))
      (rs : List PromotionRequest)
      → get r.model_name r.version ms ≡ some m
      → Any (IsMandate r.model_name r.version) rs
      → IsSound ms rs
      → (production_count r.model_name ms ≡ 0) ⊎ (is_production m.lifecycle_state ≡ true)
      → IsSound (set_lifecycle_state m.model_name m.version LifecycleState.production ms) rs
  enter_ready r m ms rs h mandate s free =
      let (a, b) = get-has_key r.model_name r.version ms m h in
      rw (a, b) (enter-IsSound rs r.model_name r.version ms m h free mandate s)

  -- Demoting the incumbent leaves its model without a version in production.
  demoted_count :
      (name : String) (ms : List (ModelVersion Pinned)) (incumbent : ModelVersion Pinned)
      → get name incumbent.version ms ≡ some incumbent
      → is_production incumbent.lifecycle_state ≡ true
      → production_count name ms ≤ 1
      → production_count name
          (set_lifecycle_state name incumbent.version LifecycleState.deprecated ms)
        ≡ 0
  demoted_count name ms incumbent h p c = ground (
    arith,
    production_count-set_lifecycle_state name name incumbent.version LifecycleState.deprecated ms
        incumbent h,
    (eq_iff name name).1 refl,
  )

  promote-IsSound :
      (rows : List (ModelVersion Pinned)) (r : PromotionRequest) (approvers : List String)
      (m : ModelVersion Pinned) (correlation_id : String) (now : ℕ) (t start : Tables Pinned)
      → production_rows r.model_name t.versions ≡ rows
      → r.to_state ≡ LifecycleState.production
      → IsReady r m t
      → IsSoundTables start
      → IsSoundTables (after (promote rows r approvers m correlation_id now t start))
  unfolding apply_transition
  promote-IsSound [] r approvers m correlation_id now t start e g (h, mandate, s) b =
      rw g (enter_ready r m t.versions t.requests h mandate s (inl (rw e refl)))
  promote-IsSound (incumbent ∷ []) r approvers m correlation_id now t start e g (h, mandate, s) b =
      let (k, c, all) = s in
      let (f, p) = get-production_rows r.model_name t.versions incumbent [] k e in
      elim (==-cases incumbent.version r.version) [
        | inl (q, eq) ↦ rw q (
            rw g (
              enter_ready r m t.versions t.requests h mandate s (
                inr (
                  subst (λ x. is_production x.lifecycle_state ≡ true)
                    (some-injective (sym f ∙ ap (λ w. get r.model_name w t.versions) eq ∙ h)) p))))
        | inr (q, ne) ↦ rw q (
            rw g (
              enter_ready r m _ t.requests
                (get-set_other r.model_name incumbent.model_name r.version incumbent.version
                  LifecycleState.deprecated t.versions m h q)
                mandate
                (leave-IsSound t.requests incumbent.model_name incumbent.version
                  LifecycleState.deprecated t.versions incumbent
                  (get_self r.model_name incumbent.version t.versions incumbent f) refl s)
                (inl (
                  rw (get-has_key r.model_name incumbent.version t.versions incumbent f).0
                    (demoted_count r.model_name t.versions incumbent f p (c r.model_name))))))
      ]
  promote-IsSound (incumbent ∷ other ∷ ms) r approvers m correlation_id now t start e g h b = b

  apply_approved-IsSound :
      (o : Option (ModelVersion Pinned)) (r : PromotionRequest) (approvers : List String)
      (correlation_id : String) (now : ℕ) (t start : Tables Pinned)
      → get r.model_name r.version t.versions ≡ o
      → (is_production r.to_state ≡ true → Any (IsMandate r.model_name r.version) t.requests)
      → IsSoundTables t
      → IsSoundTables start
      → IsSoundTables (after (apply_approved o r approvers correlation_id now t start))
  unfolding apply_transition
  apply_approved-IsSound none r approvers correlation_id now t start h mandate s b = b
  apply_approved-IsSound (some m) r approvers correlation_id now t start h mandate s b =
      elim (Bool-cases (is_production r.to_state)) [
        | inl p ↦ rw p (
            promote-IsSound (production_rows r.model_name t.versions) r approvers m correlation_id
              now t start refl (production_of r.to_state p) (h, mandate p, s) b)
        | inr p ↦ rw p (
            leave-IsSound t.requests m.model_name m.version r.to_state t.versions m
              (get_self r.model_name r.version t.versions m h) p s)
      ]

  decide-IsSound :
      (g : Option GateKind) (id : ℕ) (r : PromotionRequest) (a : Approval) (correlation_id : String)
      (now : ℕ) (t : Tables Pinned)
      → gate_for r.from_state r.to_state r.is_rollback ≡ g
      → get_request id t.requests ≡ some r
      → is_pending r.approval_state ≡ true
      → IsSoundTables t
      → IsSoundTables (after (decide g id r a correlation_id now t))
  decide-IsSound none id r a correlation_id now t g h p s = s
  decide-IsSound (some gate) id r a correlation_id now t g h p s =
      elim (Bool-cases (is_production r.to_state && not (is_human a.approver_kind))) [
        | inl x ↦ rw x s
        | inr x ↦
            rw x (elim (Bool-cases (gate_satisfied gate r.requester (r.approvals ++ a ∷ []))) [
              | inr y ↦ rw y (
                  requests-IsSound t.versions t.requests _
                    (λ name v any. Any-add_approval name v id a t.requests r h p any) s)
              | inl y ↦ rw y (
                  apply_approved-IsSound (get r.model_name r.version t.versions) r
                    (approvers_of (r.approvals ++ a ∷ [])) correlation_id now
                    (record t {
                      requests =
                          set_request_state id ApprovalState.approved
                            (add_approval id a t.requests);
                    })
                    t refl
                    (λ q.
                      settled-IsMandate id a t.requests r gate h (production_of r.to_state q)
                        (production_gate r.from_state r.to_state r.is_rollback gate
                          (production_of r.to_state q) g)
                        y)
                    (requests-IsSound t.versions t.requests _
                      (λ name v any.
                        Any-set_request_state name v id ApprovalState.approved _ _
                          (get_request-add_approval id a t.requests r h) p
                          (Any-add_approval name v id a t.requests r h p any))
                      s)
                    s)
            ])
      ]

  call_result-IsSound :
      (call : Call Pinned) (t : Tables Pinned)
      → IsSoundTables t
      → IsSoundTables (after (call_result call t))
  unfolding call_result register_version approve
  call_result-IsSound (register_call name v pinned now) t s =
      create_model_version-IsSound (get name v t.versions) _ t refl refl s
  call_result-IsSound (request_call name v to_state requester justification correlation_id e now) t
        s =
      request_transition-IsSound name v to_state requester justification correlation_id e now t s
  call_result-IsSound (approve_call id approver kind correlation_id reason now) t s =
      with_pending-IsSound (get_request id t.requests) _ t s (λ r h p.
        decide-IsSound (gate_for r.from_state r.to_state r.is_rollback) id r _ correlation_id now t
          refl h p s)
  call_result-IsSound (reject_call id approver kind reason correlation_id now) t s =
      reject-IsSound id approver kind reason correlation_id now t s
  call_result-IsSound (rollback_call name v requester justification correlation_id now) t s =
      rollback-IsSound name v requester justification correlation_id now t s

  run-IsSound : (calls : List (Call Pinned)) → IsSoundTables (run calls)
  unfolding run production_rows
  run-IsSound [] = (tt, λ k. omega arith, tt)
  run-IsSound (call ∷ earlier) = call_result-IsSound call (run earlier) (run-IsSound earlier)

  -- After any sequence of calls on empty tables, at most one version of a model is in production.
  pub run-production_count :
      (calls : List (Call Pinned)) (name : String) → production_count name (run calls).versions ≤ 1
  run-production_count calls name = (run-IsSound calls).1 name

  -- After any sequence of calls on empty tables, a version that is in production has an approved
  -- request to move it into production, whose approvals pass the four-eyes test.
  pub run-IsMandate :
      (calls : List (Call Pinned)) (name : String) (v : ℕ) (m : ModelVersion Pinned)
      → get name v (run calls).versions ≡ some m
      → m.lifecycle_state ≡ LifecycleState.production
      → Any (IsMandate name v) (run calls).requests
  unfolding get
  run-IsMandate calls name v m h e =
      let (a, b) = get-has_key name v (run calls).versions m h in
      rw (← a, ← b)
        (subst (IsPromotedAs (run calls).requests m) e
          (found (run calls).versions h ((run-IsSound calls).2)))
    where
      found :
          (ms : List (ModelVersion Pinned))
          → get name v ms ≡ some m
          → All (IsPromoted (run calls).requests) ms
          → IsPromoted (run calls).requests m
      found [] h all = ground arith
      found (n ∷ ms) h (q, all) = elim (Bool-cases (has_key name v n)) [
        | inl t ↦ subst (IsPromoted (run calls).requests) (some-injective (rw t at h)) q
        | inr t ↦ found ms (rw t at h) all
      ]
