-- ===== src/Registry/Approving.antt =====
-- `approve`, `reject` and `rollback` of `ModelRegistryService`
-- (backend/model-registry/src/aqros_model_registry/domain/services.py). A call is one transaction: if
-- it raises, the tables are as they were.
use aqros.Shared.{
  ℕ, String, Bool, true, false, not, ◌&&◌, Option, none, some, List, [], ◌∷◌, ◌++◌, ◌==◌,
  if◌then◌else◌,
}
use aqros.Shared.Action.{done, raised}
use aqros.Registry.Lifecycle.{
  LifecycleState, ApprovalState, PrincipalKind, Decision, approve_decision, reject_decision,
  GateKind, Approval, transition_allowed, gate_for, is_human,
}
use aqros.Registry.Store.{
  PromotionRequest, ModelVersion, Tables, get, is_production, production_rows, get_request,
  add_approval, set_request_state, rejected_action, approved_action, rollback_requested,
}
use aqros.Registry.Service.{
  version_not_found, illegal_transition, request_not_found, request_not_pending, automated_approval,
  never_in_production, multiple_results, Result, approvers_of, gate_satisfied, was_in_production,
  apply_transition, park, with_version,
}

abbrev pub is_pending : ApprovalState → Bool
is_pending ApprovalState.pending = true
is_pending _ = false

abbrev approval_of : String → PrincipalKind → Decision → Option String → ℕ → Approval
approval_of approver kind decision reason now = record {
  approver = approver;
  approver_kind = kind;
  decision = decision;
  reason = reason;
  created_at = now;
}

module _ {Pinned : Type 0} where
  -- The justification is without the name of the version that takes the incumbent's place.
  abbrev demote :
      ModelVersion Pinned
      → PromotionRequest
      → List String
      → String
      → ℕ
      → Tables Pinned
      → Tables Pinned
  demote incumbent r approvers correlation_id now t =
      apply_transition incumbent LifecycleState.deprecated r.requester approvers
        "Automatically demoted" correlation_id false now approved_action t

  abbrev apply_request :
      PromotionRequest
      → List String
      → ModelVersion Pinned
      → String
      → ℕ
      → Tables Pinned
      → Tables Pinned
  apply_request r approvers m correlation_id now t =
      apply_transition m r.to_state r.requester approvers r.justification correlation_id
        r.is_rollback now approved_action t

  -- The incumbent is demoted, if it is not the target, and then the target is promoted. More than one
  -- row in production makes `resolve_production` raise; `start` is the tables before the call.
  abbrev pub promote :
      List (ModelVersion Pinned)
      → PromotionRequest
      → List String
      → ModelVersion Pinned
      → String
      → ℕ
      → Tables Pinned
      → Tables Pinned
      → Result Pinned
  promote [] r approvers m correlation_id now t start =
      done (apply_request r approvers m correlation_id now t)
  promote (incumbent ∷ []) r approvers m correlation_id now t start =
      if incumbent.version == r.version
      then done (apply_request r approvers m correlation_id now t)
      else done (
          apply_request r approvers m correlation_id now
            (demote incumbent r approvers correlation_id now t))
  promote (incumbent ∷ other ∷ ms) r approvers m correlation_id now t start =
      raised multiple_results start

  -- What `approve` does once the gate is satisfied. `t` has the new approval, and the request is
  -- approved in it.
  abbrev pub apply_approved :
      Option (ModelVersion Pinned)
      → PromotionRequest
      → List String
      → String
      → ℕ
      → Tables Pinned
      → Tables Pinned
      → Result Pinned
  apply_approved none r approvers correlation_id now t start = raised version_not_found start
  apply_approved (some m) r approvers correlation_id now t start =
      if is_production r.to_state
      then promote (production_rows r.model_name t.versions) r approvers m correlation_id now t
          start
      else done (apply_request r approvers m correlation_id now t)

  -- What `approve` does with the gate. `approvals` are those of the request and the new one.
  abbrev pub decide :
      Option GateKind → ℕ → PromotionRequest → Approval → String → ℕ → Tables Pinned → Result Pinned
  decide none id r a correlation_id now t = raised illegal_transition t
  decide (some gate) id r a correlation_id now t =
      if is_production r.to_state && not (is_human a.approver_kind)
      then raised automated_approval t
      else if not (gate_satisfied gate r.requester (r.approvals ++ a ∷ []))
      then done (record t { requests = add_approval id a t.requests })
      else apply_approved (get r.model_name r.version t.versions) r
          (approvers_of (r.approvals ++ a ∷ [])) correlation_id now
          (record t {
            requests = set_request_state id ApprovalState.approved (add_approval id a t.requests);
          })
          t

  -- The request, if it is there and pending.
  abbrev pub with_pending :
      Option PromotionRequest → (PromotionRequest → Result Pinned) → Tables Pinned → Result Pinned
  with_pending none use_it t = raised request_not_found t
  with_pending (some r) use_it t =
      if not (is_pending r.approval_state) then raised request_not_pending t else use_it r

  unfoldable pub approve :
      ℕ → String → PrincipalKind → String → Option String → ℕ → Tables Pinned → Result Pinned
  approve id approver kind correlation_id reason now t =
      with_pending (get_request id t.requests)
        (λ r.
          decide (gate_for r.from_state r.to_state r.is_rollback) id r
            (approval_of approver kind approve_decision reason now) correlation_id now t)
        t

  unfoldable pub reject :
      ℕ → String → PrincipalKind → String → String → ℕ → Tables Pinned → Result Pinned
  reject id approver kind reason correlation_id now t =
      with_pending (get_request id t.requests)
        (λ r. done (record t {
          requests = set_request_state id ApprovalState.rejected (
              add_approval id (approval_of approver kind reject_decision (some reason) now)
                t.requests);
          audit =
              t.audit
              ++ record {
                action = rejected_action;
                actor = approver;
                model_name = r.model_name;
                version = r.version;
                before_state = r.from_state;
                after_state = r.from_state;
                justification = reason;
                correlation_id = correlation_id;
                created_at = now;
              }
                ∷ [];
        }))
        t

  unfoldable pub rollback :
      String → ℕ → String → String → String → ℕ → Tables Pinned → Result Pinned
  rollback name v requester justification correlation_id now t =
      with_version (get name v t.versions)
        (λ m.
          if not (transition_allowed m.lifecycle_state LifecycleState.production true)
          then raised illegal_transition t
          else if not (was_in_production name v t.history)
          then raised never_in_production t
          else park
              (record {
                model_name = name;
                version = v;
                from_state = LifecycleState.deprecated;
                to_state = LifecycleState.production;
                requester = requester;
                justification = justification;
                approval_state = ApprovalState.pending;
                approvals = [];
                is_rollback = true;
                created_at = now;
              })
              rollback_requested m.lifecycle_state correlation_id t)
        t
