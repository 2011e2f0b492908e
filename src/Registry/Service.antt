-- ===== src/Registry/Service.antt =====
-- The operations of `ModelRegistryService` that govern a model version
-- (backend/model-registry/src/aqros_model_registry/domain/services.py). A call is one transaction: if
-- it raises, the tables are as they were. Of `register` only the row that it stores is modelled. The
-- reading of the clock is an argument `now`.
use Prim.Native.String.{compare}
use Prim.Native.Nat.{Ordering}
use aqros.Shared.{
  ℕ, String, Bool, true, false, not, ◌&&◌, ◌||◌, Option, none, some, List, [], ◌∷◌, ◌++◌, ◌==◌,
  if◌then◌else◌,
}
use aqros.Shared.Text.{str_eq}
use aqros.Shared.Action.{Outcome, done, raised}
use aqros.Registry.Lifecycle.{
  LifecycleState, ApprovalState, GateKind, Approval, transition_allowed, gate_for, is_approve,
  four_eyes_satisfied,
}
use aqros.Registry.Store.{
  ValidationEvidence, PromotionRequest, PromotionHistoryEntry, AuditAction, ModelVersion, Tables,
  get, set_lifecycle_state, attach_validation_evidence, is_production, transition_requested,
}

pub data RegistryError : Type 0 where
  version_not_found illegal_transition evidence_required request_not_found : RegistryError
  request_not_pending automated_approval never_in_production : RegistryError
  integrity_error multiple_results : RegistryError

-- The place of a state in its enumeration, by which states are compared.
abbrev state_rank : LifecycleState → ℕ
state_rank LifecycleState.registered = 0
state_rank LifecycleState.validated = 1
state_rank LifecycleState.staging = 2
state_rank LifecycleState.production = 3
state_rank LifecycleState.deprecated = 4
state_rank LifecycleState.archived = 5

abbrev same_flag : Bool → Bool → Bool
same_flag true b = b
same_flag false b = not b

-- The unique constraint on a version and `_derive_idempotency_key`.
unfoldable pub is_duplicate : PromotionRequest → List PromotionRequest → Bool
is_duplicate r [] = false
is_duplicate r (q ∷ qs) =
    (str_eq q.model_name r.model_name
      && (q.version == r.version)
      && (state_rank q.from_state == state_rank r.from_state)
      && (state_rank q.to_state == state_rank r.to_state)
      && str_eq q.requester r.requester
      && same_flag q.is_rollback r.is_rollback)
    || is_duplicate r qs

-- `names.add(x)` on a sorted list.
unfoldable pub add_sorted : String → List String → List String
add_sorted x [] = x ∷ []
add_sorted x (y ∷ ys) = elim (compare x y) [
  | Ordering.lt ↦ x ∷ y ∷ ys
  | Ordering.eq ↦ y ∷ ys
  | Ordering.gt ↦ y ∷ add_sorted x ys
]

-- `sorted({a.approver for a in approvals if a.decision == DECISION_APPROVE})`
unfoldable pub approvers_of : List Approval → List String
approvers_of [] = []
approvers_of (a ∷ approvals) =
    if is_approve a.decision
    then add_sorted a.approver (approvers_of approvals)
    else approvers_of approvals

abbrev pub any_approve : List Approval → Bool
any_approve [] = false
any_approve (a ∷ approvals) = is_approve a.decision || any_approve approvals

-- `_gate_satisfied`
unfoldable pub gate_satisfied : GateKind → String → List Approval → Bool
gate_satisfied GateKind.four_eyes requester approvals = four_eyes_satisfied requester approvals
gate_satisfied GateKind.single_approval requester approvals = any_approve approvals
gate_satisfied _ requester approvals = false

-- Some entry of the version's history leads into production.
unfoldable pub was_in_production : String → ℕ → List PromotionHistoryEntry → Bool
was_in_production name v [] = false
was_in_production name v (h ∷ hs) =
    (str_eq h.model_name name && (h.version == v) && is_production h.to_state)
    || was_in_production name v hs

module _ (Pinned : Type 0) where
  abbrev pub Result : Type 0
  Result = Outcome RegistryError (Tables Pinned) (Tables Pinned)

module _ {Pinned : Type 0} where
  -- `create_model_version`, given the row that has the key already: the key is unique.
  abbrev pub create_model_version :
      Option (ModelVersion Pinned) → ModelVersion Pinned → Tables Pinned → Result Pinned
  create_model_version (some existing) m t = raised integrity_error t
  create_model_version none m t = done (record t { versions = t.versions ++ m ∷ [] })

  -- The row that `register` stores.
  unfoldable pub register_version : String → ℕ → Pinned → ℕ → Tables Pinned → Result Pinned
  register_version name v pinned now t =
      create_model_version (get name v t.versions)
        (record {
          model_name = name;
          version = v;
          pinned = pinned;
          lifecycle_state = LifecycleState.registered;
          approval_state = ApprovalState.not_required;
          validation_evidence = none;
          created_at = now;
        })
        t

  -- `_apply_transition`
  unfoldable pub apply_transition :
      ModelVersion Pinned
      → LifecycleState
      → String
      → List String
      → String
      → String
      → Bool
      → ℕ
      → AuditAction
      → Tables Pinned
      → Tables Pinned
  apply_transition m to_state requester approvers justification correlation_id is_rollback now
        action t =
      record t {
        versions = set_lifecycle_state m.model_name m.version to_state t.versions;
        history =
            t.history
            ++ record {
              model_name = m.model_name;
              version = m.version;
              from_state = m.lifecycle_state;
              to_state = to_state;
              requester = requester;
              approvers = approvers;
              justification = justification;
              is_rollback = is_rollback;
              created_at = now;
            }
              ∷ [];
        audit =
            t.audit
            ++ record {
              action = action;
              actor = requester;
              model_name = m.model_name;
              version = m.version;
              before_state = m.lifecycle_state;
              after_state = to_state;
              justification = justification;
              correlation_id = correlation_id;
              created_at = now;
            }
              ∷ [];
      }

  -- `create_request` of a pending request, and its audit event.
  unfoldable pub park :
      PromotionRequest → AuditAction → LifecycleState → String → Tables Pinned → Result Pinned
  park r action state correlation_id t =
      if is_duplicate r t.requests
      then raised integrity_error t
      else done (record t {
        requests = t.requests ++ r ∷ [];
        audit =
            t.audit
            ++ record {
              action = action;
              actor = r.requester;
              model_name = r.model_name;
              version = r.version;
              before_state = state;
              after_state = state;
              justification = r.justification;
              correlation_id = correlation_id;
              created_at = r.created_at;
            }
              ∷ [];
      })

  -- What `request_transition` does once the version is found and the gate is known.
  abbrev pub pass_gate :
      Option GateKind
      → ModelVersion Pinned
      → LifecycleState
      → String
      → String
      → String
      → Option ValidationEvidence
      → ℕ
      → Tables Pinned
      → Result Pinned
  pass_gate none m to_state requester justification correlation_id e now t =
      raised illegal_transition t
  pass_gate (some GateKind.evidence) m to_state requester justification correlation_id none now t =
      raised evidence_required t
  pass_gate (some GateKind.evidence) m to_state requester justification correlation_id (some e) now
        t =
      done (
        apply_transition m to_state requester [] justification correlation_id false now
          transition_requested
          (record t { versions = attach_validation_evidence m.model_name m.version e t.versions }))
  pass_gate (some GateKind.no_gate) m to_state requester justification correlation_id e now t =
      if is_production to_state
      then raised illegal_transition t
      else done (
          apply_transition m to_state requester [] justification correlation_id false now
            transition_requested t)
  pass_gate (some gate) m to_state requester justification correlation_id e now t =
      park
        (record {
          model_name = m.model_name;
          version = m.version;
          from_state = m.lifecycle_state;
          to_state = to_state;
          requester = requester;
          justification = justification;
          approval_state = ApprovalState.pending;
          approvals = [];
          is_rollback = false;
          created_at = now;
        })
        transition_requested m.lifecycle_state correlation_id t

  abbrev pub with_version :
      Option (ModelVersion Pinned)
      → (ModelVersion Pinned → Result Pinned)
      → Tables Pinned
      → Result Pinned
  with_version none use_it t = raised version_not_found t
  with_version (some m) use_it t = use_it m

  unfoldable pub request_transition :
      String
      → ℕ
      → LifecycleState
      → String
      → String
      → String
      → Option ValidationEvidence
      → ℕ
      → Tables Pinned
      → Result Pinned
  request_transition name v to_state requester justification correlation_id e now t =
      with_version (get name v t.versions)
        (λ m.
          if not (transition_allowed m.lifecycle_state to_state false)
          then raised illegal_transition t
          else pass_gate (gate_for m.lifecycle_state to_state false) m to_state requester
              justification correlation_id e now t)
        t
