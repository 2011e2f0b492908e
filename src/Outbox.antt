-- ===== src/Outbox.antt =====
-- The transactional outbox (libs/aqros-outbox/src/aqros_outbox): `Store` has the events and the
-- in-memory repository, `Dispatcher` the dispatch of an event. `Delivery` and `Counting` have proofs.
pub mod Store
pub mod Dispatcher
pub mod Counting
mod Tests
