-- ===== src/Auth/Trail.antt =====
-- The events of a four-eyes request (backend/auth/src/aqros_auth/domain/approvals.py): they tell how
-- it came to its status.
use aqros.Shared.{
  ℕ, String, ◌≡◌, refl, inl, inr, true, false, some, List, [], ◌∷◌, ◌++◌, ltb, leb, arith,
  Bool-cases,
}
use aqros.Shared.Text.{str_eq}
use aqros.Shared.Action.{after}
use aqros.Auth.Approvals.{
  ApprovalStatus, is_terminal, allowed, ApprovalEvent, ApprovalRequest, expires_at, append_event,
  expire_pending, approve, reject, withdraw, execute, expire_if_due,
}

-- The events lead from the first status to the last, each from where the one before it ended, along
-- allowed transitions.
abbrev pub IsTrail : ApprovalStatus → List ApprovalEvent → ApprovalStatus → Type 0
IsTrail s [] t = s ≡ t
IsTrail s (e ∷ es) t =
    (e.from_status ≡ some s) × (allowed s e.to_status ≡ true) × IsTrail e.to_status es t

IsTrail-append :
    (s t u : ApprovalStatus) (es : List ApprovalEvent) (e : ApprovalEvent)
    → IsTrail s es t
    → e.from_status ≡ some t
    → e.to_status ≡ u
    → allowed t u ≡ true
    → IsTrail s (es ++ e ∷ []) u
IsTrail-append s t u [] e h f g a = rw h (f, rw g a, g)
IsTrail-append s t u (d ∷ es) e (i, j, h) f g a =
    (i, j, IsTrail-append d.to_status t u es e h f g a)

open_expires :
    (s : ApprovalStatus) → is_terminal s ≡ false → allowed s ApprovalStatus.expired ≡ true
open_expires s h = ground arith

module _ {Payload : Type 0} where
  -- The events of a request lead from PENDING to its status.
  abbrev pub IsRecorded : ApprovalRequest Payload → Type 0
  IsRecorded r = IsTrail ApprovalStatus.pending r.events r.status

  pub append_event-IsRecorded :
      (to_status : ApprovalStatus) (actor_id : String) (at : ℕ) (reason : String)
      (r : ApprovalRequest Payload)
      → IsRecorded r
      → allowed r.status to_status ≡ true
      → IsRecorded (append_event to_status actor_id at reason r)
  unfolding append_event
  append_event-IsRecorded to_status actor_id at reason r h a =
      IsTrail-append ApprovalStatus.pending r.status to_status r.events _ h refl refl a

  pub reject-IsRecorded :
      (actor_id : String) (now : ℕ) (reason : String) (r : ApprovalRequest Payload)
      → IsRecorded r
      → IsRecorded (after (reject actor_id now reason r))
  unfolding reject
  reject-IsRecorded actor_id now reason r h =
      elim (Bool-cases (allowed r.status ApprovalStatus.rejected)) [
        | inl e ↦ rw e (
            append_event-IsRecorded ApprovalStatus.rejected actor_id now reason
              (record r { decided_at = some now }) h e)
        | inr e ↦ rw e h
      ]

  pub withdraw-IsRecorded :
      (actor_id : String) (now : ℕ) (reason : String) (r : ApprovalRequest Payload)
      → IsRecorded r
      → IsRecorded (after (withdraw actor_id now reason r))
  unfolding withdraw
  withdraw-IsRecorded actor_id now reason r h =
      elim (Bool-cases (allowed r.status ApprovalStatus.withdrawn)) [
        | inl e ↦ rw e (append_event-IsRecorded ApprovalStatus.withdrawn actor_id now reason r h e)
        | inr e ↦ rw e h
      ]

  pub execute-IsRecorded :
      (actor_id : String) (now : ℕ) (reason : String) (r : ApprovalRequest Payload)
      → IsRecorded r
      → IsRecorded (after (execute actor_id now reason r))
  unfolding execute
  execute-IsRecorded actor_id now reason r h =
      elim (Bool-cases (allowed r.status ApprovalStatus.executed)) [
        | inl e ↦ rw e (
            append_event-IsRecorded ApprovalStatus.executed actor_id now reason
              (record r { executed_at = some now }) h e)
        | inr e ↦ rw e h
      ]

  expire_pending-IsRecorded :
      (s : ApprovalStatus) (approver_id : String) (now : ℕ) (r : ApprovalRequest Payload)
      → r.status ≡ s
      → IsRecorded r
      → IsRecorded (expire_pending s approver_id now r)
  expire_pending-IsRecorded ApprovalStatus.pending approver_id now r e h =
      append_event-IsRecorded ApprovalStatus.expired approver_id now "expired before approval" r h
        (rw e refl)
  expire_pending-IsRecorded ApprovalStatus.approved approver_id now r e h = h
  expire_pending-IsRecorded ApprovalStatus.rejected approver_id now r e h = h
  expire_pending-IsRecorded ApprovalStatus.executed approver_id now r e h = h
  expire_pending-IsRecorded ApprovalStatus.expired approver_id now r e h = h
  expire_pending-IsRecorded ApprovalStatus.withdrawn approver_id now r e h = h

  pub approve-IsRecorded :
      (approver_id : String) (now : ℕ) (reason : String) (r : ApprovalRequest Payload)
      → IsRecorded r
      → IsRecorded (after (approve approver_id now reason r))
  unfolding approve
  approve-IsRecorded approver_id now reason r h =
      elim (Bool-cases (str_eq approver_id r.requester_id)) [
        | inl e ↦ rw e h
        | inr e ↦ rw e (elim (Bool-cases (ltb (expires_at r) now)) [
          | inl late ↦ rw late (expire_pending-IsRecorded r.status approver_id now r refl h)
          | inr due ↦ rw due (elim (Bool-cases (allowed r.status ApprovalStatus.approved)) [
            | inl a ↦ rw a (
                append_event-IsRecorded ApprovalStatus.approved approver_id now reason
                  (record r { approver_id = some approver_id; decided_at = some now }) h a)
            | inr n ↦ rw n h
          ])
        ])
      ]

  pub expire_if_due-IsRecorded :
      (now : ℕ) (r : ApprovalRequest Payload) → IsRecorded r → IsRecorded ((expire_if_due now r).1)
  unfolding expire_if_due
  expire_if_due-IsRecorded now r h = elim (Bool-cases (is_terminal r.status)) [
    | inl e ↦ rw e h
    | inr e ↦ rw e (elim (Bool-cases (leb now (expires_at r))) [
      | inl due ↦ rw due h
      | inr late ↦ rw late (
          append_event-IsRecorded ApprovalStatus.expired "system" now "ttl elapsed" r h
            (open_expires r.status e))
    ])
  ]
