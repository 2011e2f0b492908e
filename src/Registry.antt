-- ===== src/Registry.antt =====
-- The governance of model versions (backend/model-registry/src/aqros_model_registry): `Lifecycle` has
-- the states, the legal transitions, the gates and the four-eyes test, `Store` the tables, `Service` and
-- `Approving` the operations of `ModelRegistryService` on them. The other modules have proofs.
pub mod Lifecycle
pub mod Store
pub mod Service
pub mod Approving
pub mod Gates
pub mod Tables
pub mod Mandates
pub mod Soundness
pub mod Calls
pub mod Steps
pub mod Promotion
pub mod Stale
mod Tests
