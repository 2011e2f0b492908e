-- ===== src/Auth/Finality.antt =====
-- A four-eyes request that is rejected, executed, expired or withdrawn is final
-- (backend/auth/src/aqros_auth/domain/service.py).
use aqros.Shared.{
  ℕ, String, ◌≡◌, ◌↔◌, ◌∙◌, ap, refl, sym, inl, inr, true, false, some, List, [], ◌∷◌, ◌++◌,
  if◌then◌else◌, arith, All, Bool-cases, some-injective,
}
use aqros.Shared.Text.{str_eq, eq_iff}
use aqros.Shared.Dict.{lookup, insert, lookup-insert, All-lookup}
use aqros.Shared.Action.{done, raised, after, is_done}
use aqros.Auth.Policy.{Principal, Policy, may_approve}
use aqros.Auth.Approvals.{
  ApprovalStatus, is_terminal, ApprovalRequest, Result, append_event, approve, reject, execute,
}
use aqros.Auth.Desk.{
  permission_for_action, Approvals, save, stored, opened, request_approval, approve_request,
  reject_request, is_approved, execute_approved, store_after,
}
use aqros.Auth.Calls.{Call, open_call, approve_call, reject_call, execute_call, perform, run}
use aqros.Auth.Keeping.{IsGoverned}
use aqros.Auth.Vouching.{found, run-IsGoverned}

module _ {Payload : Type 0} where
  lookup-stored :
      (j key : String) (store : Approvals Payload) (outcome : Result Payload)
      → (after outcome).request_id ≡ key
      → lookup j (store_after (stored key store outcome))
        ≡ (if str_eq key j then some (after outcome) else lookup j store)
  unfolding save
  lookup-stored j key store (done r) k =
      lookup-insert r.request_id j r (insert key r store)
      ∙ ap (λ q. if str_eq q j then some r else lookup j (insert key r store)) k
      ∙ ground (arith, lookup-insert key j r store)
  lookup-stored j key store (raised e r) k = lookup-insert key j r store

  approve_terminal :
      (approver_id : String) (now : ℕ) (reason : String) (r : ApprovalRequest Payload)
      → is_terminal r.status ≡ true
      → after (approve approver_id now reason r) ≡ r
  unfolding approve
  approve_terminal approver_id now reason r h = ground arith

  reject_terminal :
      (actor_id : String) (now : ℕ) (reason : String) (r : ApprovalRequest Payload)
      → is_terminal r.status ≡ true
      → after (reject actor_id now reason r) ≡ r
  unfolding reject
  reject_terminal actor_id now reason r h = ground arith

  filed :
      (policy : Policy) (calls : List (Call Payload)) (key : String) (s : ApprovalRequest Payload)
      → lookup key (run policy calls) ≡ some s
      → s.request_id ≡ key
  filed policy calls key s f =
      (All-lookup (IsGoverned policy calls) key s (run policy calls) (run-IsGoverned policy calls)
        f).0

  -- The call does not open a request under the key.
  abbrev pub IsElsewhere : String → Call Payload → Type 0
  IsElsewhere key (open_call requester action resource payload ttl fresh_id now) =
      str_eq fresh_id key ≡ false
  IsElsewhere key _ = Unit

  -- Storing what a method made of a request leaves a request under the key, if the method leaves it.
  stored_terminal :
      (j key : String) (store : Approvals Payload) (outcome : Result Payload)
      (r s : ApprovalRequest Payload)
      → lookup j store ≡ some r
      → lookup key store ≡ some s
      → s.request_id ≡ key
      → (after outcome).request_id ≡ s.request_id
      → (str_eq key j ≡ true → after outcome ≡ s)
      → lookup j (store_after (stored key store outcome)) ≡ some r
  stored_terminal j key store outcome r s e f k i g =
      lookup-stored j key store outcome (i ∙ k) ∙ (elim (Bool-cases (str_eq key j)) [
        | inr n ↦ rw n e
        | inl t ↦ rw t (rw (g t) (sym f ∙ (rw ((eq_iff key j).0 t) e)))
      ])

  request_id-approve :
      (approver_id : String) (now : ℕ) (reason : String) (r : ApprovalRequest Payload)
      → (after (approve approver_id now reason r)).request_id ≡ r.request_id
  unfolding approve append_event
  request_id-approve approver_id now reason r = ground arith

  request_id-reject :
      (actor_id : String) (now : ℕ) (reason : String) (r : ApprovalRequest Payload)
      → (after (reject actor_id now reason r)).request_id ≡ r.request_id
  unfolding reject append_event
  request_id-reject actor_id now reason r = ground arith

  request_id-execute :
      (actor_id : String) (now : ℕ) (reason : String) (r : ApprovalRequest Payload)
      → (after (execute actor_id now reason r)).request_id ≡ r.request_id
  unfolding execute append_event
  request_id-execute actor_id now reason r = ground arith

  -- The one request that stands under a key.
  lookup_once :
      (j key : String) (store : Approvals Payload) (r s : ApprovalRequest Payload)
      → lookup j store ≡ some r
      → lookup key store ≡ some s
      → str_eq key j ≡ true
      → r ≡ s
  lookup_once j key store r s e f t =
      some-injective (sym e ∙ ap (λ k. lookup k store) (sym ((eq_iff key j).0 t)) ∙ f)

  perform_terminal :
      (policy : Policy) (earlier : List (Call Payload)) (call : Call Payload) (j : String)
      (r : ApprovalRequest Payload)
      → lookup j (run policy earlier) ≡ some r
      → is_terminal r.status ≡ true
      → IsElsewhere j call
      → lookup j (perform policy call (run policy earlier)) ≡ some r
  unfolding perform request_approval opened save approve_request reject_request execute_approved
  perform_terminal policy earlier (open_call requester action resource payload ttl fresh_id now) j r
        e t h =
      lookup-insert fresh_id j _ (run policy earlier) ∙ rw h e
  perform_terminal policy earlier (approve_call key approver reason now) j r e t h =
      found (λ o. lookup j (store_after o) ≡ some r) key (run policy earlier) _ e
        (λ s f.
          elim (Bool-cases
            (may_approve policy approver (permission_for_action s.action) s.requester_id).allowed) [
              | inr n ↦ rw n e
              | inl a ↦ rw a (
                  stored_terminal j key (run policy earlier) _ r s e f
                    (filed policy earlier key s f)
                    (request_id-approve approver.principal_id now reason s)
                    (λ k.
                      approve_terminal approver.principal_id now reason s
                        (rw (lookup_once j key (run policy earlier) r s e f k) at t)))
            ])
  perform_terminal policy earlier (reject_call key actor reason now) j r e t h =
      found (λ o. lookup j (store_after o) ≡ some r) key (run policy earlier) _ e
        (λ s f.
          stored_terminal j key (run policy earlier) _ r s e f (filed policy earlier key s f)
            (request_id-reject actor.principal_id now reason s)
            (λ k.
              reject_terminal actor.principal_id now reason s
                (rw (lookup_once j key (run policy earlier) r s e f k) at t)))
  perform_terminal policy earlier (execute_call key actor reason now) j r e t h =
      found (λ o. lookup j (store_after o) ≡ some r) key (run policy earlier) _ e
        (λ s f. elim (Bool-cases (is_approved s.status)) [
          | inr n ↦ rw n e
          | inl a ↦ rw a (
              stored_terminal j key (run policy earlier) _ r s e f (filed policy earlier key s f)
                (request_id-execute actor.principal_id now reason s)
                (λ k. ground (arith, rw (lookup_once j key (run policy earlier) r s e f k) at t)))
        ])

  -- Once a request is rejected, executed, expired or withdrawn, it stays exactly as it is, whatever
  -- calls follow that do not open a new request under its identifier.
  pub run_terminal :
      (policy : Policy) (later earlier : List (Call Payload)) (key : String)
      (r : ApprovalRequest Payload)
      → lookup key (run policy earlier) ≡ some r
      → is_terminal r.status ≡ true
      → All (IsElsewhere key) later
      → lookup key (run policy (later ++ earlier)) ≡ some r
  unfolding run
  run_terminal policy [] earlier key r e t h = e
  run_terminal policy (call ∷ later) earlier key r e t (h, hs) =
      perform_terminal policy (later ++ earlier) call key r
        (run_terminal policy later earlier key r e t hs) t h

  -- An approved request can be executed, and nothing else can: the call succeeds exactly when the
  -- request is approved, at any time, also after it has expired.
  pub execute_approved_lem :
      (key : String) (actor : Principal) (reason : String) (now : ℕ) (store : Approvals Payload)
      (r : ApprovalRequest Payload)
      → lookup key store ≡ some r
      → (is_done (execute_approved key actor reason now store) ≡ true)
        ↔ (r.status ≡ ApprovalStatus.approved)
  unfolding execute_approved execute
  execute_approved_lem key actor reason now store r e = rw e (λ h. ground arith, λ h. rw h refl)
