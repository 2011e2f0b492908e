-- ===== src/Auth/Decisions.antt =====
-- What the decisions of `Policy` (backend/auth/src/aqros_auth/domain/policy.py) come down to.
use aqros.Shared.{
  String, ◌≡◌, ◌≢◌, ◌↔◌, inl, inr, true, false, ◌||◌, List, [], ◌∷◌, ◌++◌, Any, arith, Bool-cases,
}
use aqros.Shared.Text.{str_eq, eq_iff}
use aqros.Auth.Policy.{
  Role, Permission, includes, has_role, Principal, Policy, permissions_of, permissions_for,
  requires_four_eyes, can, meets, may_approve,
}

includes-append :
    (ps qs : List Permission) (p : Permission)
    → includes (ps ++ qs) p ≡ (includes ps p || includes qs p)
unfolding includes
includes-append [] qs p = ground arith
includes-append (r ∷ ps) qs p = ground (arith, includes-append ps qs p)

-- Some role has the permission.
abbrev pub IsGranted : Policy → List Role → Permission → Type 0
IsGranted policy roles permission =
    Any (λ r. includes (policy.role_permissions r) permission ≡ true) roles

includes-permissions_of :
    (policy : Policy) (roles : List Role) (p : Permission)
    → (includes (permissions_of policy.role_permissions roles) p ≡ true) ↔ IsGranted policy roles p
unfolding permissions_of includes
includes-permissions_of policy [] p = (λ h. ground arith, λ h. elim h [ ])
includes-permissions_of policy (r ∷ rs) p = (
  λ h. elim (Bool-cases (includes (policy.role_permissions r) p)) [
    | inl e ↦ inl e
    | inr e ↦ inr (
        (includes-permissions_of policy rs p).0 (
          ground (
            arith,
            includes-append (policy.role_permissions r) (permissions_of policy.role_permissions rs)
                p,
          )))
  ],
  λ h. elim h [
    | inl e ↦ ground (
      arith,
      includes-append (policy.role_permissions r) (permissions_of policy.role_permissions rs) p,
    )
    | inr g ↦ ground (
      arith,
      includes-append (policy.role_permissions r) (permissions_of policy.role_permissions rs) p,
      (includes-permissions_of policy rs p).1 g,
    )
  ],
)

-- A principal may exercise a permission directly exactly when the principal is active, the
-- permission needs no second person, and one of the principal's roles has it.
can-allowed :
    (policy : Policy) (p : Principal) (permission : Permission)
    → ((can policy p permission).allowed ≡ true) ↔ (
        (p.is_active ≡ true)
        × (includes policy.four_eyes_permissions permission ≡ false)
        × IsGranted policy p.roles permission)
unfolding can requires_four_eyes permissions_for
can-allowed policy p permission = (
  λ h. (
    ground arith,
    ground arith,
    (includes-permissions_of policy p.roles permission).0 (ground arith),
  ),
  λ (a, f, g). ground (arith, (includes-permissions_of policy p.roles permission).1 g),
)

meets-Any :
    (roles approvers : List Role)
    → (meets roles approvers ≡ true) ↔ Any (λ r. has_role approvers r ≡ true) roles
unfolding meets
meets-Any [] approvers = (λ h. ground arith, λ h. elim h [ ])
meets-Any (r ∷ rs) approvers = (
  λ h. elim (Bool-cases (has_role approvers r)) [
    | inl e ↦ inl e
    | inr e ↦ inr ((meets-Any rs approvers).0 (ground arith))
  ],
  λ h. elim h [ inl e ↦ ground arith | inr g ↦ ground (arith, (meets-Any rs approvers).1 g) ],
)

-- A principal may approve a request exactly when the principal is active, the permission needs a
-- second person, the principal did not make the request, and has one of the approvers' roles.
pub may_approve-allowed :
    (policy : Policy) (p : Principal) (permission : Permission) (requester_id : String)
    → ((may_approve policy p permission requester_id).allowed ≡ true) ↔ (
        (p.is_active ≡ true)
        × (includes policy.four_eyes_permissions permission ≡ true)
        × (p.principal_id ≢ requester_id)
        × Any (λ r. has_role policy.approver_roles r ≡ true) p.roles)
unfolding may_approve requires_four_eyes
may_approve-allowed policy p permission requester_id = (
  λ h. (
    ground arith,
    ground arith,
    λ e. ground (arith, (eq_iff p.principal_id requester_id).1 e),
    (meets-Any p.roles policy.approver_roles).0 (ground arith),
  ),
  λ (a, f, d, g). elim (Bool-cases (str_eq p.principal_id requester_id)) [
    | inl e ↦ elim (d ((eq_iff p.principal_id requester_id).0 e)) [ ]
    | inr e ↦ ground (arith, (meets-Any p.roles policy.approver_roles).1 g)
  ],
)
