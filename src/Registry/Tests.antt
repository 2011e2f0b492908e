-- ===== src/Registry/Tests.antt =====
-- The theorems on the model registry (backend/model-registry) at concrete calls.
use aqros.Shared.{ℕ, ◌≤◌, ◌≢◌, ◌≡◌, refl, ◌↔◌, String, true, false, none, some, List, [], ◌∷◌, Any}
use aqros.Shared.Action.{after}
use aqros.Registry.Lifecycle.{
  LifecycleState, ApprovalState, PrincipalKind, Decision, Approval, contains, counts,
  distinct_approvers, four_eyes_satisfied,
}
use aqros.Registry.Store.{
  ValidationEvidence, PromotionRequest, ModelVersion, get, set_lifecycle_state,
  attach_validation_evidence, production_rows, get_request, add_approval, set_request_state,
}
use aqros.Registry.Service.{
  is_duplicate, add_sorted, approvers_of, gate_satisfied, register_version, apply_transition, park,
  request_transition,
}
use aqros.Registry.Approving.{approve}
use aqros.Registry.Gates.{IsVote, four_eyes_satisfied_lem}
use aqros.Registry.Calls.{Call, register_call, request_call, approve_call, call_result, run}
use aqros.Registry.Tables.{production_count}
use aqros.Registry.Mandates.{IsMandate}
use aqros.Registry.Promotion.{run-production_count, run-IsMandate}
use aqros.Registry.Stale.{approve_lem}

abbrev report : ValidationEvidence
report = record { kind = "backtest_report"; reference = "r1"; attached_at = 2 }

abbrev human_approval : ℕ → String → ℕ → Call ℕ
human_approval id approver now = approve_call id approver PrincipalKind.human "" none now

-- Version 1 is asked into staging and into the archive, and archived. The latest call stands first.
abbrev archiving : List (Call ℕ)
archiving =
    human_approval 1 "bob" 6
    ∷ request_call "m" 1 LifecycleState.archived "dan" "old" "" none 5
    ∷ request_call "m" 1 LifecycleState.staging "ann" "new" "" none 4
    ∷ request_call "m" 1 LifecycleState.validated "ann" "good" "" (some report) 3
    ∷ register_call "m" 1 7 1
    ∷ []

abbrev archived_version : ModelVersion ℕ
archived_version = record {
  model_name = "m";
  version = 1;
  pinned = 7;
  lifecycle_state = LifecycleState.archived;
  approval_state = ApprovalState.not_required;
  validation_evidence = some report;
  created_at = 1;
}

abbrev staging_request : PromotionRequest
staging_request = record {
  model_name = "m";
  version = 1;
  from_state = LifecycleState.validated;
  to_state = LifecycleState.staging;
  requester = "ann";
  justification = "new";
  approval_state = ApprovalState.pending;
  approvals = [];
  is_rollback = false;
  created_at = 4;
}

archived_found : get "m" 1 (run archiving).versions ≡ some archived_version
unfolding run call_result register_version request_transition apply_transition park approve get
    set_lifecycle_state attach_validation_evidence get_request add_approval set_request_state
    is_duplicate gate_satisfied add_sorted approvers_of
archived_found = refl

staging_found : get_request 0 (run archiving).requests ≡ some staging_request
unfolding run call_result register_version request_transition apply_transition park approve get
    set_lifecycle_state attach_validation_evidence get_request add_approval set_request_state
    is_duplicate gate_satisfied add_sorted approvers_of
staging_found = refl

-- The archived version leaves the archive.
approve_lem_example :
    get "m" 1 (after (approve 0 "bob" PrincipalKind.human "" none 7 (run archiving))).versions
    ≡ some (record archived_version { lifecycle_state = LifecycleState.staging })
approve_lem_example =
    approve_lem 0 "bob" PrincipalKind.human "" none 7 (run archiving) staging_request
      archived_version staging_found refl refl archived_found

-- Version 1 goes the whole way into production.
abbrev promoting : List (Call ℕ)
promoting =
    human_approval 1 "carl" 8
    ∷ human_approval 1 "bob" 7
    ∷ request_call "m" 1 LifecycleState.production "ann" "live" "" none 6
    ∷ human_approval 0 "bob" 5
    ∷ request_call "m" 1 LifecycleState.staging "ann" "new" "" none 4
    ∷ request_call "m" 1 LifecycleState.validated "ann" "good" "" (some report) 3
    ∷ register_call "m" 1 7 1
    ∷ []

abbrev promoted_version : ModelVersion ℕ
promoted_version = record archived_version { lifecycle_state = LifecycleState.production }

promoted_found : get "m" 1 (run promoting).versions ≡ some promoted_version
unfolding run call_result register_version request_transition apply_transition park approve get
    set_lifecycle_state attach_validation_evidence get_request add_approval set_request_state
    is_duplicate gate_satisfied add_sorted approvers_of four_eyes_satisfied distinct_approvers
    counts contains production_rows
promoted_found = refl

run-IsMandate_example : Any (IsMandate "m" 1) (run promoting).requests
run-IsMandate_example = run-IsMandate promoting "m" 1 promoted_version promoted_found refl

run-production_count_example : production_count "m" (run promoting).versions ≤ 1
run-production_count_example = run-production_count promoting "m"

abbrev vote : String → Approval
vote approver = record {
  approver = approver;
  approver_kind = PrincipalKind.human;
  decision = Decision.approve_decision;
  reason = none;
  created_at = 1;
}

four_eyes_satisfied_lem_example :
    (four_eyes_satisfied "ann" (vote "bob" ∷ vote "carl" ∷ []) ≡ true) ↔ (
      (x : String) × ((y : String) × ((x ≢ y)
          × IsVote "ann" (vote "bob" ∷ vote "carl" ∷ []) x
          × IsVote "ann" (vote "bob" ∷ vote "carl" ∷ []) y)))
four_eyes_satisfied_lem_example = four_eyes_satisfied_lem "ann" (vote "bob" ∷ vote "carl" ∷ [])
