-- ===== src/Paper.antt =====
-- The paper trading engine (backend/paper-trading-engine/src/aqros_paper_trading).
pub mod Orders
pub mod Matching
pub mod Exchange
pub mod Pricing
pub mod Placing
pub mod Queues
pub mod Sweeping
pub mod Resting
pub mod Crossing
pub mod Steps
mod Tests
