-- ===== src/Auth/Calls.antt =====
-- Sequences of calls of the four-eyes operations of `AuthService`
-- (backend/auth/src/aqros_auth/domain/service.py).
use aqros.Shared.{ℕ, String, List, [], ◌∷◌}
use aqros.Auth.Policy.{Principal, Policy}
use aqros.Auth.Desk.{
  Approvals, request_approval, approve_request, reject_request, execute_approved, store_after,
}

module _ (Payload : Type 0) where
  -- A call of the service that changes the stored requests, with its arguments.
  pub data Call : Type 0 where
    open_call : Principal → String → String → Payload → ℕ → String → ℕ → Call
    approve_call reject_call execute_call : String → Principal → String → ℕ → Call

module _ {Payload : Type 0} where
  unfoldable pub perform : Policy → Call Payload → Approvals Payload → Approvals Payload
  perform policy (open_call requester action resource payload ttl fresh_id now) store =
      store_after (request_approval requester action resource payload ttl fresh_id now store)
  perform policy (approve_call key approver reason now) store =
      store_after (approve_request policy key approver reason now store)
  perform policy (reject_call key actor reason now) store =
      store_after (reject_request key actor reason now store)
  perform policy (execute_call key actor reason now) store =
      store_after (execute_approved key actor reason now store)

  -- The stored requests after the calls, of which the latest stands first, on an empty repository.
  unfoldable pub run : Policy → List (Call Payload) → Approvals Payload
  run policy [] = []
  run policy (call ∷ earlier) = perform policy call (run policy earlier)
