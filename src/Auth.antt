-- ===== src/Auth.antt =====
-- Authorization and four-eyes approvals (backend/auth/src/aqros_auth): `Policy` has the roles and
-- the decisions, `Approvals` the life of a request, `Desk` the service's operations on the stored
-- requests, `Calls` sequences of them. The other modules have proofs.
pub mod Policy
pub mod Approvals
pub mod Desk
pub mod Decisions
pub mod Trail
pub mod Calls
pub mod Keeping
pub mod Vouching
pub mod Finality
mod Tests
