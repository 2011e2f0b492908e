-- ===== src/Registry/Store.antt =====
-- The tables of the model registry (adapters/repository.py and domain/models.py of
-- backend/model-registry/src/aqros_model_registry): versions, promotion requests with their
-- approvals, promotion history and audit events, each in the order of insertion. A request's
-- identifier is its place in the table. What registration pins into a version besides the fields
-- here (lineage, metrics, artifact) is never read by the operations below, so its type is a
-- parameter.
use aqros.Shared.{
  ℕ, zero, suc, String, Bool, true, false, ◌&&◌, Option, none, some, List, [], ◌∷◌, ◌++◌, ◌==◌,
  if◌then◌else◌,
}
use aqros.Shared.Text.{str_eq}
use aqros.Registry.Lifecycle.{LifecycleState, ApprovalState, Approval}

pub record ValidationEvidence : Type 0 where
  pub kind : String
  pub reference : String
  pub attached_at : ℕ

pub record PromotionRequest : Type 0 where
  pub model_name : String
  pub version : ℕ
  pub from_state : LifecycleState
  pub to_state : LifecycleState
  pub requester : String
  pub justification : String
  pub approval_state : ApprovalState
  pub approvals : List Approval
  pub is_rollback : Bool
  pub created_at : ℕ

pub record PromotionHistoryEntry : Type 0 where
  pub model_name : String
  pub version : ℕ
  pub from_state : LifecycleState
  pub to_state : LifecycleState
  pub requester : String
  pub approvers : List String
  pub justification : String
  pub is_rollback : Bool
  pub created_at : ℕ

pub data AuditAction : Type 0 where
  transition_requested approved_action rejected_action rollback_requested : AuditAction

pub record AuditEvent : Type 0 where
  pub action : AuditAction
  pub actor : String
  pub model_name : String
  pub version : ℕ
  pub before_state : LifecycleState
  pub after_state : LifecycleState
  pub justification : String
  pub correlation_id : String
  pub created_at : ℕ

abbrev pub is_production : LifecycleState → Bool
is_production LifecycleState.production = true
is_production _ = false

module _ (Pinned : Type 0) where
  pub record ModelVersion : Type 0 where
    pub model_name : String
    pub version : ℕ
    pub pinned : Pinned
    pub lifecycle_state : LifecycleState
    pub approval_state : ApprovalState
    pub validation_evidence : Option ValidationEvidence
    pub created_at : ℕ

  pub record Tables : Type 0 where
    pub versions : List ModelVersion
    pub requests : List PromotionRequest
    pub history : List PromotionHistoryEntry
    pub audit : List AuditEvent

module _ {Pinned : Type 0} where
  abbrev pub has_key : String → ℕ → ModelVersion Pinned → Bool
  has_key name v m = str_eq m.model_name name && (m.version == v)

  -- `get`
  unfoldable pub get : String → ℕ → List (ModelVersion Pinned) → Option (ModelVersion Pinned)
  get name v [] = none
  get name v (m ∷ ms) = if has_key name v m then some m else get name v ms

  -- The row with its lifecycle state set.
  unfoldable pub set_lifecycle_state :
      String → ℕ → LifecycleState → List (ModelVersion Pinned) → List (ModelVersion Pinned)
  set_lifecycle_state name v state [] = []
  set_lifecycle_state name v state (m ∷ ms) =
      if has_key name v m
      then record m { lifecycle_state = state } ∷ ms
      else m ∷ set_lifecycle_state name v state ms

  unfoldable pub attach_validation_evidence :
      String → ℕ → ValidationEvidence → List (ModelVersion Pinned) → List (ModelVersion Pinned)
  attach_validation_evidence name v e [] = []
  attach_validation_evidence name v e (m ∷ ms) =
      if has_key name v m
      then record m { validation_evidence = some e } ∷ ms
      else m ∷ attach_validation_evidence name v e ms

  -- The rows that `resolve_production` selects.
  unfoldable pub production_rows : String → List (ModelVersion Pinned) → List (ModelVersion Pinned)
  production_rows name [] = []
  production_rows name (m ∷ ms) =
      if str_eq m.model_name name && is_production m.lifecycle_state
      then m ∷ production_rows name ms
      else production_rows name ms

-- `_require_request_orm` and `get_request`: the row at a place.
unfoldable pub get_request : ℕ → List PromotionRequest → Option PromotionRequest
get_request k [] = none
get_request zero (r ∷ rs) = some r
get_request (suc k) (r ∷ rs) = get_request k rs

unfoldable pub add_approval : ℕ → Approval → List PromotionRequest → List PromotionRequest
add_approval k a [] = []
add_approval zero a (r ∷ rs) = record r { approvals = r.approvals ++ a ∷ [] } ∷ rs
add_approval (suc k) a (r ∷ rs) = r ∷ add_approval k a rs

unfoldable pub set_request_state : ℕ → ApprovalState → List PromotionRequest → List PromotionRequest
set_request_state k state [] = []
set_request_state zero state (r ∷ rs) = record r { approval_state = state } ∷ rs
set_request_state (suc k) state (r ∷ rs) = r ∷ set_request_state k state rs
