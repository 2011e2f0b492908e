-- ===== src/Registry/Calls.antt =====
-- Sequences of calls of `ModelRegistryService`
-- (backend/model-registry/src/aqros_model_registry/domain/services.py) on empty tables.
use aqros.Shared.{ℕ, String, Option, List, [], ◌∷◌}
use aqros.Shared.Action.{after}
use aqros.Registry.Lifecycle.{LifecycleState, PrincipalKind}
use aqros.Registry.Store.{ValidationEvidence, Tables}
use aqros.Registry.Service.{Result, register_version, request_transition}
use aqros.Registry.Approving.{approve, reject, rollback}

module _ (Pinned : Type 0) where
  -- A call that changes the tables, with its arguments.
  pub data Call : Type 0 where
    register_call : String → ℕ → Pinned → ℕ → Call
    request_call :
        String
        → ℕ
        → LifecycleState
        → String
        → String
        → String
        → Option ValidationEvidence
        → ℕ
        → Call
    approve_call : ℕ → String → PrincipalKind → String → Option String → ℕ → Call
    reject_call : ℕ → String → PrincipalKind → String → String → ℕ → Call
    rollback_call : String → ℕ → String → String → String → ℕ → Call

module _ {Pinned : Type 0} where
  abbrev pub empty : Tables Pinned
  empty = record { versions = []; requests = []; history = []; audit = [] }

  unfoldable pub call_result : Call Pinned → Tables Pinned → Result Pinned
  call_result (register_call name v pinned now) t = register_version name v pinned now t
  call_result (request_call name v to_state requester justification correlation_id e now) t =
      request_transition name v to_state requester justification correlation_id e now t
  call_result (approve_call id approver kind correlation_id reason now) t =
      approve id approver kind correlation_id reason now t
  call_result (reject_call id approver kind reason correlation_id now) t =
      reject id approver kind reason correlation_id now t
  call_result (rollback_call name v requester justification correlation_id now) t =
      rollback name v requester justification correlation_id now t

  -- The tables after the calls, of which the latest stands first. A call that raises is rolled back.
  unfoldable pub run : List (Call Pinned) → Tables Pinned
  run [] = empty
  run (call ∷ earlier) = after (call_result call (run earlier))
