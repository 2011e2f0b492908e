-- ===== src/Auth/Tests.antt =====
-- The theorems on the four-eyes approvals (backend/auth) at a concrete policy and requests.
use aqros.Shared.{ℕ, ◌≡◌, refl, String, true, false, none, some, List, [], ◌∷◌, ◌++◌, All, Any}
use aqros.Shared.Dict.{lookup, insert}
use aqros.Auth.Policy.{
  Role, role_rank, permission_rank, includes, has_role, Principal, default_policy,
  requires_four_eyes, meets, may_approve,
}
use aqros.Auth.Approvals.{
  ApprovalStatus, ApprovalRequest, expires_at, append_event, approve, execute,
}
use aqros.Auth.Desk.{
  permission_for_action, save, opened, request_approval, approve_request, execute_approved,
}
use aqros.Auth.Trail.{IsRecorded}
use aqros.Auth.Calls.{Call, open_call, approve_call, reject_call, execute_call, perform, run}
use aqros.Auth.Keeping.{IsApproval}
use aqros.Auth.Vouching.{run-IsVouched, run-IsRecorded}
use aqros.Auth.Finality.{run_terminal}

abbrev principal_of : String → Role → Principal
principal_of name role = record {
  principal_id = name;
  display_name = name;
  roles = role ∷ [];
  is_service = false;
  is_active = true;
}

abbrev ann : Principal
ann = principal_of "ann" Role.operator

abbrev bob : Principal
bob = principal_of "bob" Role.committee

-- Ann asks, Bob approves in time, and Ann executes after the request has expired. The latest call
-- stands first.
abbrev approved_calls : List (Call ℕ)
approved_calls =
    approve_call "a1" bob "fine" 50 ∷ open_call ann "promote_model" "m" 7 100 "a1" 10 ∷ []

abbrev calls : List (Call ℕ)
calls = execute_call "a1" ann "go" 900 ∷ approved_calls

abbrev approved_request : ApprovalRequest ℕ
approved_request = record {
  request_id = "a1";
  action = "promote_model";
  resource = "m";
  payload = 7;
  requester_id = "ann";
  created_at = 10;
  ttl = 100;
  status = ApprovalStatus.approved;
  approver_id = some "bob";
  decided_at = some 50;
  executed_at = none;
  events =
      record {
        from_status = some ApprovalStatus.pending;
        to_status = ApprovalStatus.approved;
        actor_id = "bob";
        at = 50;
        reason = "fine";
      }
      ∷ [];
}

abbrev executed_request : ApprovalRequest ℕ
executed_request = record approved_request {
  status = ApprovalStatus.executed;
  executed_at = some 900;
  events =
      approved_request.events
      ++ record {
        from_status = some ApprovalStatus.approved;
        to_status = ApprovalStatus.executed;
        actor_id = "ann";
        at = 900;
        reason = "go";
      }
        ∷ [];
}

approved_calls_found : lookup "a1" (run default_policy approved_calls) ≡ some approved_request
unfolding run perform request_approval opened approve_request approve append_event save
    permission_for_action may_approve requires_four_eyes includes meets has_role role_rank
    permission_rank expires_at lookup insert
approved_calls_found = refl

calls_found : lookup "a1" (run default_policy calls) ≡ some executed_request
unfolding run perform request_approval opened approve_request approve execute_approved execute
    append_event save permission_for_action may_approve requires_four_eyes includes meets has_role
    role_rank permission_rank expires_at lookup insert
calls_found = refl

run-IsVouched_example : Any (IsApproval default_policy "a1" executed_request) calls
run-IsVouched_example = run-IsVouched default_policy calls "a1" executed_request calls_found refl

run-IsRecorded_example : All (λ item. IsRecorded (item.1)) (run default_policy calls)
run-IsRecorded_example = run-IsRecorded default_policy calls

run_terminal_example :
    lookup "a1" (run default_policy (reject_call "a1" bob "no" 950 ∷ calls)) ≡ some executed_request
run_terminal_example =
    run_terminal default_policy (reject_call "a1" bob "no" 950 ∷ []) calls "a1" executed_request
      calls_found refl (tt, tt)
