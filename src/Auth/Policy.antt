-- ===== src/Auth/Policy.antt =====
-- Roles, permissions and the authorization decision (backend/auth/src/aqros_auth/domain/policy.py).
-- A set is a list that is only asked for its members; the reasons of a decision are a data type in
-- place of the messages.
use aqros.Shared.{ℕ, String, Bool, true, false, not, ◌||◌, List, [], ◌∷◌, ◌++◌, ◌==◌, if◌then◌else◌}
use aqros.Shared.Text.{str_eq}

pub data Role : Type 0 where
  observer researcher operator risk_officer committee admin : Role

pub data Permission : Type 0 where
  view_research run_backtest build_dataset train_model register_model : Permission
  view_signals submit_order cancel_order arm_live disarm_live kill_switch : Permission
  view_risk veto_trade change_risk_limit promote_model : Permission
  read_audit append_audit manage_users : Permission

-- The place of a role and of a permission in its enumeration, by which they are compared.
unfoldable pub role_rank : Role → ℕ
role_rank observer = 0
role_rank researcher = 1
role_rank operator = 2
role_rank risk_officer = 3
role_rank committee = 4
role_rank admin = 5

unfoldable pub permission_rank : Permission → ℕ
permission_rank view_research = 0
permission_rank run_backtest = 1
permission_rank build_dataset = 2
permission_rank train_model = 3
permission_rank register_model = 4
permission_rank view_signals = 5
permission_rank submit_order = 6
permission_rank cancel_order = 7
permission_rank arm_live = 8
permission_rank disarm_live = 9
permission_rank kill_switch = 10
permission_rank view_risk = 11
permission_rank veto_trade = 12
permission_rank change_risk_limit = 13
permission_rank promote_model = 14
permission_rank read_audit = 15
permission_rank append_audit = 16
permission_rank manage_users = 17

-- `permission in permissions` and `role in roles`
unfoldable pub includes : List Permission → Permission → Bool
includes [] p = false
includes (q ∷ qs) p = (permission_rank q == permission_rank p) || includes qs p

unfoldable pub has_role : List Role → Role → Bool
has_role [] r = false
has_role (s ∷ ss) r = (role_rank s == role_rank r) || has_role ss r

-- `FOUR_EYES_PERMISSIONS`, `ROLE_PERMISSIONS` and `APPROVER_ROLES`
abbrev pub four_eyes_table : List Permission
four_eyes_table = change_risk_limit ∷ promote_model ∷ arm_live ∷ []

abbrev pub role_table : Role → List Permission
role_table observer = view_research ∷ view_signals ∷ view_risk ∷ read_audit ∷ []
role_table researcher =
    view_research ∷ run_backtest ∷ build_dataset ∷ train_model ∷ register_model ∷ view_signals
    ∷ read_audit ∷ []
role_table operator =
    view_research ∷ view_signals ∷ submit_order ∷ cancel_order ∷ disarm_live ∷ kill_switch
    ∷ view_risk ∷ []
role_table risk_officer =
    view_research ∷ view_signals ∷ view_risk ∷ veto_trade ∷ kill_switch ∷ read_audit ∷ []
role_table committee =
    view_research ∷ view_risk ∷ change_risk_limit ∷ promote_model ∷ arm_live ∷ read_audit ∷ []
role_table admin =
    view_research ∷ view_signals ∷ view_risk ∷ manage_users ∷ read_audit ∷ append_audit
    ∷ disarm_live ∷ kill_switch ∷ []

pub record Principal : Type 0 where
  pub principal_id : String
  pub display_name : String
  pub roles : List Role
  pub is_service : Bool
  pub is_active : Bool

-- Why an authorization came out as it did.
pub data Reason : Type 0 where
  principal_deactivated needs_four_eyes role_lacks_permission granted : Reason
  approver_deactivated not_four_eyes own_request not_an_approver distinct_approver : Reason

pub record AuthorizationDecision : Type 0 where
  pub allowed : Bool
  pub reason : Reason
  pub requires_four_eyes : Bool

-- A role without an entry in the dict of the source has the empty list.
pub record Policy : Type 0 where
  pub role_permissions : Role → List Permission
  pub four_eyes_permissions : List Permission
  pub approver_roles : List Role

-- `Policy()`
abbrev pub default_policy : Policy
default_policy = record {
  role_permissions = role_table;
  four_eyes_permissions = four_eyes_table;
  approver_roles = committee ∷ [];
}

-- The loop of `permissions_for` over the roles.
unfoldable pub permissions_of : (Role → List Permission) → List Role → List Permission
permissions_of table [] = []
permissions_of table (r ∷ rs) = table r ++ permissions_of table rs

unfoldable pub permissions_for : Policy → Principal → List Permission
permissions_for policy p = permissions_of policy.role_permissions p.roles

unfoldable pub requires_four_eyes : Policy → Permission → Bool
requires_four_eyes policy permission = includes policy.four_eyes_permissions permission

abbrev decision : Bool → Reason → Bool → AuthorizationDecision
decision a r f = record { allowed = a; reason = r; requires_four_eyes = f }

unfoldable pub can : Policy → Principal → Permission → AuthorizationDecision
can policy p permission =
    if not p.is_active
    then decision false principal_deactivated false
    else if requires_four_eyes policy permission
    then decision false needs_four_eyes true
    else if not (includes (permissions_for policy p) permission)
    then decision false role_lacks_permission false
    else decision true granted false

-- `approver.roles & self.approver_roles` is not empty.
unfoldable pub meets : List Role → List Role → Bool
meets [] approvers = false
meets (r ∷ rs) approvers = has_role approvers r || meets rs approvers

-- Only the identifier of the requester is read.
unfoldable pub may_approve : Policy → Principal → Permission → String → AuthorizationDecision
may_approve policy approver permission requester_id =
    if not approver.is_active
    then decision false approver_deactivated false
    else if not (requires_four_eyes policy permission)
    then decision false not_four_eyes false
    else if str_eq approver.principal_id requester_id
    then decision false own_request true
    else if not (meets approver.roles policy.approver_roles)
    then decision false not_an_approver false
    else decision true distinct_approver true
