-- ===== src/Auth/Vouching.antt =====
-- The four-eyes rule over any sequence of calls of the service
-- (backend/auth/src/aqros_auth/domain/service.py): what is executed was approved by another person.
use aqros.Shared.{
  ℕ, String, ◌≡◌, refl, inl, inr, true, Option, none, some, List, [], ◌∷◌, arith, All, Any, All-map,
  Bool-cases,
}
use aqros.Shared.Dict.{lookup, All-insert, All-lookup}
use aqros.Shared.Action.{raised}
use aqros.Auth.Policy.{Principal, Policy, may_approve}
use aqros.Auth.Approvals.{ApprovalStatus, ApprovalError, ApprovalRequest, expires_at}
use aqros.Auth.Desk.{
  permission_for_action, Approvals, Reply, save, opened, request_approval, approve_request,
  reject_request, is_approved, when_found, execute_approved, store_after,
}
use aqros.Auth.Trail.{IsRecorded, approve-IsRecorded}
use aqros.Auth.Calls.{Call, open_call, approve_call, reject_call, execute_call, perform, run}
use aqros.Auth.Keeping.{
  IsApproval, IsGoverned, IsGoverned-later, stored-All, reject-IsGoverned, execute-IsGoverned,
  approve-IsStill,
}

approved-of : (s : ApprovalStatus) → is_approved s ≡ true → s ≡ ApprovalStatus.approved
approved-of s e = ground arith

module _ {Payload : Type 0} where
  -- What a call on the request under a key comes to, if it is found or not.
  pub found :
      (P : Reply Payload → Type 0) (key : String) (store : Approvals Payload)
      (use_it : ApprovalRequest Payload → Reply Payload)
      → P (raised ApprovalError.not_found store)
      → ((s : ApprovalRequest Payload) → lookup key store ≡ some s → P (use_it s))
      → P (when_found (lookup key store) store use_it)
  found P key store use_it h g = go (lookup key store) refl
    where
      go :
          (o : Option (ApprovalRequest Payload))
          → lookup key store ≡ o
          → P (when_found o store use_it)
      go none e = h
      go (some s) e = g s e

  approve_request-IsGoverned :
      (policy : Policy) (calls : List (Call Payload)) (key : String) (approver : Principal)
      (reason : String) (now : ℕ) (store : Approvals Payload)
      → All (IsGoverned policy (approve_call key approver reason now ∷ calls)) store
      → All
          (IsGoverned policy (approve_call key approver reason now ∷ calls))
          (store_after (approve_request policy key approver reason now store))
  unfolding approve_request
  approve_request-IsGoverned policy calls key approver reason now store h =
      found
        (λ o.
          All (IsGoverned policy (approve_call key approver reason now ∷ calls)) (store_after o))
        key store _ h
        (λ r e.
          let (k, t, v) = All-lookup _ key r store h e in
          elim (Bool-cases
            (may_approve policy approver (permission_for_action r.action) r.requester_id).allowed) [
              | inr n ↦ rw n h
              | inl a ↦
                  let (k', v') = approve-IsStill policy calls key approver now reason r a (k, v) in
                  rw a (
                    stored-All _ key store _ h k'
                      (k', approve-IsRecorded approver.principal_id now reason r t, v'))
            ])

  reject_request-IsGoverned :
      (policy : Policy) (calls : List (Call Payload)) (key : String) (actor : Principal)
      (reason : String) (now : ℕ) (store : Approvals Payload)
      → All (IsGoverned policy calls) store
      → All (IsGoverned policy calls) (store_after (reject_request key actor reason now store))
  unfolding reject_request
  reject_request-IsGoverned policy calls key actor reason now store h =
      found (λ o. All (IsGoverned policy calls) (store_after o)) key store _ h
        (λ r e.
          let kept =
            reject-IsGoverned policy calls key actor.principal_id now reason r
              (All-lookup _ key r store h e) in
          stored-All _ key store _ h (kept.0) kept)

  execute_approved-IsGoverned :
      (policy : Policy) (calls : List (Call Payload)) (key : String) (actor : Principal)
      (reason : String) (now : ℕ) (store : Approvals Payload)
      → All (IsGoverned policy calls) store
      → All (IsGoverned policy calls) (store_after (execute_approved key actor reason now store))
  unfolding execute_approved
  execute_approved-IsGoverned policy calls key actor reason now store h =
      found (λ o. All (IsGoverned policy calls) (store_after o)) key store _ h
        (λ r e. elim (Bool-cases (is_approved r.status)) [
          | inr n ↦ rw n h
          | inl a ↦
              let kept =
                execute-IsGoverned policy calls key actor.principal_id now reason r
                  (approved-of r.status a) (All-lookup _ key r store h e) in
              rw a (stored-All _ key store _ h (kept.0) kept)
        ])

  perform-IsGoverned :
      (policy : Policy) (calls : List (Call Payload)) (call : Call Payload)
      (store : Approvals Payload)
      → All (IsGoverned policy (call ∷ calls)) store
      → All (IsGoverned policy (call ∷ calls)) (perform policy call store)
  unfolding perform request_approval opened save
  perform-IsGoverned policy calls (open_call requester action resource payload ttl fresh_id now)
        store h =
      All-insert _ fresh_id _ store (refl, refl, tt) h
  perform-IsGoverned policy calls (approve_call key approver reason now) store h =
      approve_request-IsGoverned policy calls key approver reason now store h
  perform-IsGoverned policy calls (reject_call key actor reason now) store h =
      reject_request-IsGoverned policy (reject_call key actor reason now ∷ calls) key actor reason
        now store h
  perform-IsGoverned policy calls (execute_call key actor reason now) store h =
      execute_approved-IsGoverned policy (execute_call key actor reason now ∷ calls) key actor
        reason now store h

  pub run-IsGoverned :
      (policy : Policy) (calls : List (Call Payload))
      → All (IsGoverned policy calls) (run policy calls)
  unfolding run
  run-IsGoverned policy [] = tt
  run-IsGoverned policy (call ∷ earlier) =
      perform-IsGoverned policy earlier call (run policy earlier) (
        All-map (IsGoverned-later policy earlier call) (run policy earlier)
          (run-IsGoverned policy earlier))

  -- After any sequence of calls of the service on an empty repository, a request that is executed was
  -- approved by one of the calls, before it expired, by a principal whom the policy allows to approve
  -- it, and it names this principal as its approver.
  pub run-IsVouched :
      (policy : Policy) (calls : List (Call Payload)) (key : String) (r : ApprovalRequest Payload)
      → lookup key (run policy calls) ≡ some r
      → r.status ≡ ApprovalStatus.executed
      → Any (IsApproval policy key r) calls
  unfolding expires_at
  run-IsVouched policy calls key r e s =
      let (k, t, v) =
        All-lookup (IsGoverned policy calls) key r (run policy calls) (run-IsGoverned policy calls)
          e in
      rw s at v

  -- After any sequence of calls of the service on an empty repository, the events of every stored
  -- request lead from PENDING to its status, each from where the one before it ended, along allowed
  -- transitions.
  pub run-IsRecorded :
      (policy : Policy) (calls : List (Call Payload))
      → All (λ item. IsRecorded (item.1)) (run policy calls)
  run-IsRecorded policy calls =
      All-map (λ item h. h.1) (run policy calls) (run-IsGoverned policy calls)
