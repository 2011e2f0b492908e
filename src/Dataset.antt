-- ===== src/Dataset.antt =====
-- The split of a dataset into folds (backend/dataset-builder/src/aqros_dataset_builder): `Splits`
-- has the splitters, `Audit` the leakage audit of their folds, `Request` the parameters that the API
-- lets in. `Windows` has proofs on the three splitters that look forward, `Purged` on the purged
-- cross-validation, `Clearance` and `Bounds` on all of them together.
pub mod Splits
pub mod Audit
pub mod Request
pub mod Windows
pub mod Purged
pub mod Clearance
pub mod Bounds
mod Tests
