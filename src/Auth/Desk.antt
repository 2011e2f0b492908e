-- ===== src/Auth/Desk.antt =====
-- The four-eyes operations of `AuthService` (backend/auth/src/aqros_auth/domain/service.py) over the
-- in-memory repository of approvals (adapters/inmemory.py). The repository hands out the stored
-- object itself, so what a method wrote to a request before it raised is stored. `fresh_id` is the
-- new identifier and `now` the time of the call.
use aqros.Shared.{ℕ, String, Bool, true, false, not, Option, none, some, [], if◌then◌else◌}
use aqros.Shared.Text.{str_eq}
use aqros.Shared.Dict.{Dict, lookup, insert}
use aqros.Shared.Action.{Outcome, done, raised}
use aqros.Auth.Policy.{Permission, Principal, Policy, may_approve}
use aqros.Auth.Approvals.{
  ApprovalStatus, ApprovalError, ApprovalRequest, Result, approve, reject, execute,
}

-- `_permission_for_action`
unfoldable pub permission_for_action : String → Permission
permission_for_action action =
    if str_eq action "change_risk_limit"
    then Permission.change_risk_limit
    else if str_eq action "promote_model"
    then Permission.promote_model
    else if str_eq action "arm_live"
    then Permission.arm_live
    else Permission.change_risk_limit

abbrev pub is_approved : ApprovalStatus → Bool
is_approved ApprovalStatus.approved = true
is_approved _ = false

module _ (Payload : Type 0) where
  abbrev pub Approvals : Type 0
  Approvals = Dict (ApprovalRequest Payload)

  -- What a call of the service comes to: the request that it returns, with the store, or an error,
  -- with the store.
  abbrev pub Reply : Type 0
  Reply = Outcome ApprovalError Approvals (ApprovalRequest Payload × Approvals)

module _ {Payload : Type 0} where
  -- `save`
  unfoldable pub save : ApprovalRequest Payload → Approvals Payload → Approvals Payload
  save r store = insert r.request_id r store

  -- The object under the key is what the method left of it; then it is saved, or the error goes on.
  abbrev pub stored : String → Approvals Payload → Result Payload → Reply Payload
  stored key store (done r) = done (r, save r (insert key r store))
  stored key store (raised e r) = raised e (insert key r store)

  -- The object that `request_approval` builds.
  unfoldable pub opened :
      Principal → String → String → Payload → ℕ → String → ℕ → ApprovalRequest Payload
  opened requester action resource payload ttl fresh_id now = record {
    request_id = fresh_id;
    action = action;
    resource = resource;
    payload = payload;
    requester_id = requester.principal_id;
    created_at = now;
    ttl = ttl;
    status = ApprovalStatus.pending;
    approver_id = none;
    decided_at = none;
    executed_at = none;
    events = [];
  }

  unfoldable pub request_approval :
      Principal → String → String → Payload → ℕ → String → ℕ → Approvals Payload → Reply Payload
  request_approval requester action resource payload ttl fresh_id now store = done (
    opened requester action resource payload ttl fresh_id now,
    save (opened requester action resource payload ttl fresh_id now) store,
  )

  -- `_require_request`, and what the operation does with the request.
  abbrev pub when_found :
      Option (ApprovalRequest Payload)
      → Approvals Payload
      → (ApprovalRequest Payload → Reply Payload)
      → Reply Payload
  when_found none store use_it = raised ApprovalError.not_found store
  when_found (some r) store use_it = use_it r

  abbrev pub with_request :
      String → Approvals Payload → (ApprovalRequest Payload → Reply Payload) → Reply Payload
  with_request key store use_it = when_found (lookup key store) store use_it

  unfoldable pub approve_request :
      Policy → String → Principal → String → ℕ → Approvals Payload → Reply Payload
  approve_request policy key approver reason now store = with_request key store (λ r.
      if not (may_approve policy approver (permission_for_action r.action) r.requester_id).allowed
      then raised ApprovalError.separation_of_duties store
      else stored key store (approve approver.principal_id now reason r))

  unfoldable pub reject_request :
      String → Principal → String → ℕ → Approvals Payload → Reply Payload
  reject_request key actor reason now store =
      with_request key store (λ r. stored key store (reject actor.principal_id now reason r))

  unfoldable pub execute_approved :
      String → Principal → String → ℕ → Approvals Payload → Reply Payload
  execute_approved key actor reason now store = with_request key store (λ r.
      if not (is_approved r.status)
      then raised ApprovalError.not_approved store
      else stored key store (execute actor.principal_id now reason r))

  -- The store after a call, whether it returned or raised.
  abbrev pub store_after : Reply Payload → Approvals Payload
  store_after (done (r, store)) = store
  store_after (raised e store) = store
