-- ===== src/Auth/Approvals.antt =====
-- The four-eyes request and its methods (backend/auth/src/aqros_auth/domain/approvals.py). The
-- payload is kept as it came, so its type is a parameter. Times and the time to live are numbers of
-- microseconds.
use aqros.Shared.{
  ℕ, ◌+◌, String, Bool, true, false, not, Option, some, List, [], ◌∷◌, ◌++◌, ltb, leb,
  if◌then◌else◌,
}
use aqros.Shared.Text.{str_eq}
use aqros.Shared.Action.{Outcome, done, ◌>>=◌, raise_if}

pub data ApprovalStatus : Type 0 where
  pending approved rejected executed expired withdrawn : ApprovalStatus

-- `TERMINAL_STATUSES`
abbrev pub is_terminal : ApprovalStatus → Bool
is_terminal rejected = true
is_terminal executed = true
is_terminal expired = true
is_terminal withdrawn = true
is_terminal _ = false

-- `ALLOWED_TRANSITIONS`
abbrev pub allowed : ApprovalStatus → ApprovalStatus → Bool
allowed pending approved = true
allowed pending rejected = true
allowed pending expired = true
allowed pending withdrawn = true
allowed approved executed = true
allowed approved rejected = true
allowed approved expired = true
allowed approved withdrawn = true
allowed _ _ = false

pub data ApprovalError : Type 0 where
  invalid_transition separation_of_duties not_found not_approved : ApprovalError

pub record ApprovalEvent : Type 0 where
  pub from_status : Option ApprovalStatus
  pub to_status : ApprovalStatus
  pub actor_id : String
  pub at : ℕ
  pub reason : String

module _ (Payload : Type 0) where
  pub record ApprovalRequest : Type 0 where
    pub request_id : String
    pub action : String
    pub resource : String
    pub payload : Payload
    pub requester_id : String
    pub created_at : ℕ
    pub ttl : ℕ
    pub status : ApprovalStatus
    pub approver_id : Option String
    pub decided_at : Option ℕ
    pub executed_at : Option ℕ
    pub events : List ApprovalEvent

  abbrev pub Result : Type 0
  Result = Outcome ApprovalError ApprovalRequest ApprovalRequest

module _ {Payload : Type 0} where
  unfoldable pub expires_at : ApprovalRequest Payload → ℕ
  expires_at r = r.created_at + r.ttl

  -- `_append`
  unfoldable pub append_event :
      ApprovalStatus → String → ℕ → String → ApprovalRequest Payload → ApprovalRequest Payload
  append_event to_status actor_id at reason r = record r {
    events =
        r.events
        ++ record {
          from_status = some r.status;
          to_status = to_status;
          actor_id = actor_id;
          at = at;
          reason = reason;
        }
          ∷ [];
    status = to_status;
  }

  -- `_assert_transition`
  abbrev assert_transition : ApprovalStatus → ApprovalRequest Payload → Result Payload
  assert_transition to_status r = raise_if (not (allowed r.status to_status)) invalid_transition r

  abbrev pub expire_pending :
      ApprovalStatus → String → ℕ → ApprovalRequest Payload → ApprovalRequest Payload
  expire_pending pending approver_id now r =
      append_event expired approver_id now "expired before approval" r
  expire_pending _ approver_id now r = r

  unfoldable pub approve : String → ℕ → String → ApprovalRequest Payload → Result Payload
  approve approver_id now reason r = do
    _ ← raise_if (str_eq approver_id r.requester_id) separation_of_duties r
    _ ←
        raise_if (ltb (expires_at r) now) invalid_transition
          (expire_pending r.status approver_id now r)
    _ ← assert_transition approved r
    done (
        append_event approved approver_id now reason
          (record r { approver_id = some approver_id; decided_at = some now }))

  unfoldable pub reject : String → ℕ → String → ApprovalRequest Payload → Result Payload
  reject actor_id now reason r = do
    _ ← assert_transition rejected r
    done (append_event rejected actor_id now reason (record r { decided_at = some now }))

  unfoldable pub withdraw : String → ℕ → String → ApprovalRequest Payload → Result Payload
  withdraw actor_id now reason r = do
    _ ← assert_transition withdrawn r
    done (append_event withdrawn actor_id now reason r)

  unfoldable pub execute : String → ℕ → String → ApprovalRequest Payload → Result Payload
  execute actor_id now reason r = do
    _ ← assert_transition executed r
    done (append_event executed actor_id now reason (record r { executed_at = some now }))

  -- The request after the call, and whether it expired.
  unfoldable pub expire_if_due : ℕ → ApprovalRequest Payload → Bool × ApprovalRequest Payload
  expire_if_due now r =
      if is_terminal r.status
      then (false, r)
      else if leb now (expires_at r)
      then (false, r)
      else (true, append_event expired "system" now "ttl elapsed" r)
