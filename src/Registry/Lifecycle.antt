-- ===== src/Registry/Lifecycle.antt =====
-- States, legal transitions, gates and the four-eyes test of the model registry
-- (domain/lifecycle.py, domain/approval.py and domain/models.py of
-- backend/model-registry/src/aqros_model_registry). `none` stands for `IllegalTransitionError`.
use aqros.Shared.{
  ℕ, String, Bool, true, false, not, ◌&&◌, ◌||◌, Option, none, some, List, [], ◌∷◌, length, leb,
  if◌then◌else◌,
}
use aqros.Shared.Text.{str_eq}

pub data LifecycleState : Type 0 where
  registered validated staging production deprecated archived : LifecycleState

pub data ApprovalState : Type 0 where
  not_required pending approved rejected : ApprovalState

pub data PrincipalKind : Type 0 where
  human automated : PrincipalKind

-- The decisions `"approve"` and `"reject"`.
pub data Decision : Type 0 where
  approve_decision reject_decision : Decision

pub data GateKind : Type 0 where
  no_gate evidence single_approval four_eyes : GateKind

pub record Approval : Type 0 where
  pub approver : String
  pub approver_kind : PrincipalKind
  pub decision : Decision
  pub reason : Option String
  pub created_at : ℕ

-- `_FORWARD_AND_ABANDONMENT_EDGES`
abbrev forward_or_abandonment : LifecycleState → LifecycleState → Bool
forward_or_abandonment registered validated = true
forward_or_abandonment validated staging = true
forward_or_abandonment staging production = true
forward_or_abandonment production deprecated = true
forward_or_abandonment registered archived = true
forward_or_abandonment validated archived = true
forward_or_abandonment staging archived = true
forward_or_abandonment deprecated archived = true
forward_or_abandonment _ _ = false

-- `_ROLLBACK_EDGE`
abbrev rollback_edge : LifecycleState → LifecycleState → Bool
rollback_edge deprecated production = true
rollback_edge _ _ = false

-- `transition_allowed`, where `false` is the raise.
abbrev pub transition_allowed : LifecycleState → LifecycleState → Bool → Bool
transition_allowed from_state to_state true = rollback_edge from_state to_state
transition_allowed from_state to_state false = forward_or_abandonment from_state to_state

-- `_GATE_TABLE`
abbrev gate_table : LifecycleState → LifecycleState → Option GateKind
gate_table registered validated = some evidence
gate_table validated staging = some single_approval
gate_table staging production = some four_eyes
gate_table production deprecated = some single_approval
gate_table registered archived = some single_approval
gate_table validated archived = some single_approval
gate_table staging archived = some single_approval
gate_table deprecated archived = some single_approval
gate_table _ _ = none

abbrev pub gate_for : LifecycleState → LifecycleState → Bool → Option GateKind
gate_for from_state to_state true =
    if rollback_edge from_state to_state then some four_eyes else none
gate_for from_state to_state false = gate_table from_state to_state

abbrev pub is_human : PrincipalKind → Bool
is_human human = true
is_human automated = false

abbrev pub is_approve : Decision → Bool
is_approve approve_decision = true
is_approve reject_decision = false

-- `x in names`
unfoldable pub contains : String → List String → Bool
contains x [] = false
contains x (y ∷ ys) = str_eq y x || contains x ys

-- `names.add(x)`
abbrev pub add : String → List String → List String
add x names = if contains x names then names else x ∷ names

-- The approval counts: a person other than the requester approves.
unfoldable pub counts : String → Approval → Bool
counts requester a =
    is_human a.approver_kind && is_approve a.decision && not (str_eq a.approver requester)

-- The set of the loop of `four_eyes_satisfied`.
unfoldable pub distinct_approvers : String → List Approval → List String → List String
distinct_approvers requester [] names = names
distinct_approvers requester (a ∷ approvals) names =
    if counts requester a
    then distinct_approvers requester approvals (add a.approver names)
    else distinct_approvers requester approvals names

unfoldable pub four_eyes_satisfied : String → List Approval → Bool
four_eyes_satisfied requester approvals = leb 2 (length (distinct_approvers requester approvals []))
