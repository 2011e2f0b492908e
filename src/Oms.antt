-- ===== src/Oms.antt =====
-- The order management service (backend/oms). `Order` has the data of domain/models.py, `Methods`
-- the methods of `Order`, `Validation` the checks of a new order and its expiry, and `Service` the
-- routes that change an order. The other modules have the proofs.
pub mod Order
pub mod Methods
pub mod Lifecycle
pub mod Accounting
pub mod Filling
pub mod Validation
pub mod Expiry
pub mod Repository
pub mod Requests
pub mod Service
pub mod Rules
pub mod Consistency
pub mod History
pub mod Creation
mod Tests
