-- ===== src/Audit.antt =====
-- The audit ledger (backend/audit-ledger). `Chain` has the entries and the hash chain of
-- domain/chain.py, `Ledger` the append-only repository of adapters/inmemory.py and the service of
-- domain/service.py. The other modules have the proofs.
pub mod Chain
pub mod Ledger
pub mod Verification
pub mod Joining
pub mod Evidence
pub mod Growth
mod Tests
