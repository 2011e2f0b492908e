-- ===== src/Auth/Keeping.antt =====
-- What the methods of a request (backend/auth/src/aqros_auth/domain/approvals.py) keep: who approved
-- it, and the events.
use mathlib.Core.Path.{subst}
use aqros.Shared.{
  ℕ, ◌+◌, ◌≤◌, String, ◌≡◌, refl, sym, inl, inr, true, some, List, ◌∷◌, arith, All, Any, Bool-cases,
  ltb-cases,
}
use aqros.Shared.Text.{str_eq}
use aqros.Shared.Dict.{insert, All-insert}
use aqros.Shared.Action.{done, raised, after}
use aqros.Auth.Policy.{Principal, Policy, may_approve}
use aqros.Auth.Approvals.{
  ApprovalStatus, allowed, ApprovalRequest, Result, expires_at, append_event, expire_pending,
  approve, reject, execute,
}
use aqros.Auth.Desk.{permission_for_action, Approvals, save, stored, store_after}
use aqros.Auth.Trail.{IsRecorded, reject-IsRecorded, execute-IsRecorded}
use aqros.Auth.Calls.{Call, approve_call}

module _ {Payload : Type 0} where
  -- The call approves the request under the key: the policy allows the approver to, and it is made
  -- before the request expires.
  abbrev pub IsApproval : Policy → String → ApprovalRequest Payload → Call Payload → Type 0
  IsApproval policy key r (approve_call k approver reason now) =
      (k ≡ key)
      × ((may_approve policy approver (permission_for_action r.action) r.requester_id).allowed
          ≡ true)
      × (now ≤ expires_at r)
      × (r.approver_id ≡ some approver.principal_id)
  IsApproval policy key r _ = ⊥

  -- A request that is approved or executed has a call that approved it.
  abbrev pub IsVouched :
      Policy → List (Call Payload) → String → ApprovalRequest Payload → ApprovalStatus → Type 0
  IsVouched policy calls key r ApprovalStatus.approved = Any (IsApproval policy key r) calls
  IsVouched policy calls key r ApprovalStatus.executed = Any (IsApproval policy key r) calls
  IsVouched policy calls key r _ = Unit

  -- What holds of each request that is stored under its key after the calls.
  abbrev pub IsGoverned : Policy → List (Call Payload) → String × ApprovalRequest Payload → Type 0
  IsGoverned policy calls (key, r) =
      (r.request_id ≡ key) × IsRecorded r × IsVouched policy calls key r r.status

  IsVouched-later :
      (policy : Policy) (calls : List (Call Payload)) (call : Call Payload) (key : String)
      (r : ApprovalRequest Payload) (s : ApprovalStatus)
      → IsVouched policy calls key r s
      → IsVouched policy (call ∷ calls) key r s
  IsVouched-later policy calls call key r ApprovalStatus.approved h = inr h
  IsVouched-later policy calls call key r ApprovalStatus.executed h = inr h
  IsVouched-later policy calls call key r ApprovalStatus.pending h = tt
  IsVouched-later policy calls call key r ApprovalStatus.rejected h = tt
  IsVouched-later policy calls call key r ApprovalStatus.expired h = tt
  IsVouched-later policy calls call key r ApprovalStatus.withdrawn h = tt

  pub IsGoverned-later :
      (policy : Policy) (calls : List (Call Payload)) (call : Call Payload)
      (item : String × ApprovalRequest Payload)
      → IsGoverned policy calls item
      → IsGoverned policy (call ∷ calls) item
  IsGoverned-later policy calls call (key, r) (k, t, v) =
      (k, t, IsVouched-later policy calls call key r r.status v)

  -- Storing what a method made of a request keeps what holds of all items.
  pub stored-All :
      (P : String × ApprovalRequest Payload → Type 0) (key : String) (store : Approvals Payload)
      (outcome : Result Payload)
      → All P store
      → (after outcome).request_id ≡ key
      → P (key, after outcome)
      → All P (store_after (stored key store outcome))
  unfolding save
  stored-All P key store (done r) h k p =
      All-insert P r.request_id r (insert key r store) (subst (λ j. P (j, r)) (sym k) p)
        (All-insert P key r store p h)
  stored-All P key store (raised e r) h k p = All-insert P key r store p h

  pub reject-IsGoverned :
      (policy : Policy) (calls : List (Call Payload)) (key : String) (actor_id : String) (now : ℕ)
      (reason : String) (r : ApprovalRequest Payload)
      → IsGoverned policy calls (key, r)
      → IsGoverned policy calls (key, after (reject actor_id now reason r))
  unfolding reject append_event
  reject-IsGoverned policy calls key actor_id now reason r (k, t, v) = (
    ground arith,
    reject-IsRecorded actor_id now reason r t,
    elim (Bool-cases (allowed r.status ApprovalStatus.rejected)) [
      | inl e ↦ rw e tt
      | inr e ↦ rw e v
    ],
  )

  pub execute-IsGoverned :
      (policy : Policy) (calls : List (Call Payload)) (key : String) (actor_id : String) (now : ℕ)
      (reason : String) (r : ApprovalRequest Payload)
      → r.status ≡ ApprovalStatus.approved
      → IsGoverned policy calls (key, r)
      → IsGoverned policy calls (key, after (execute actor_id now reason r))
  unfolding execute append_event expires_at
  execute-IsGoverned policy calls key actor_id now reason r s (k, t, v) =
      (ground arith, execute-IsRecorded actor_id now reason r t, rw s (rw s at v))

  -- The request keeps its identifier and is vouched for in its status.
  abbrev pub IsStill : Policy → List (Call Payload) → String → ApprovalRequest Payload → Type 0
  IsStill policy calls key r = (r.request_id ≡ key) × IsVouched policy calls key r r.status

  expire_pending-IsStill :
      (policy : Policy) (calls : List (Call Payload)) (key approver_id : String) (now : ℕ)
      (r : ApprovalRequest Payload) (s : ApprovalStatus)
      → IsStill policy calls key r
      → IsStill policy calls key (expire_pending s approver_id now r)
  unfolding append_event
  expire_pending-IsStill policy calls key approver_id now r ApprovalStatus.pending (k, v) = (k, tt)
  expire_pending-IsStill policy calls key approver_id now r ApprovalStatus.approved h = h
  expire_pending-IsStill policy calls key approver_id now r ApprovalStatus.rejected h = h
  expire_pending-IsStill policy calls key approver_id now r ApprovalStatus.executed h = h
  expire_pending-IsStill policy calls key approver_id now r ApprovalStatus.expired h = h
  expire_pending-IsStill policy calls key approver_id now r ApprovalStatus.withdrawn h = h

  -- An approval that the policy allows is the call that vouches for the request.
  pub approve-IsStill :
      (policy : Policy) (calls : List (Call Payload)) (key : String) (approver : Principal)
      (now : ℕ) (reason : String) (r : ApprovalRequest Payload)
      → (may_approve policy approver (permission_for_action r.action) r.requester_id).allowed ≡ true
      → IsStill policy (approve_call key approver reason now ∷ calls) key r
      → IsStill policy
          (approve_call key approver reason now ∷ calls)
          key
          (after (approve approver.principal_id now reason r))
  unfolding approve append_event expires_at
  approve-IsStill policy calls key approver now reason r a (k, v) =
      elim (Bool-cases (str_eq approver.principal_id r.requester_id)) [
        | inl e ↦ rw e (k, v)
        | inr e ↦ rw e (elim (ltb-cases (r.created_at + r.ttl) now) [
          | inl (late, gt) ↦ rw late (
              expire_pending-IsStill policy (approve_call key approver reason now ∷ calls) key
                approver.principal_id now r r.status (k, v))
          | inr (due, le) ↦ rw due (elim (Bool-cases (allowed r.status ApprovalStatus.approved)) [
            | inl t ↦ rw t (k, inl (refl, a, le, refl))
            | inr n ↦ rw n (k, v)
          ])
        ])
      ]
