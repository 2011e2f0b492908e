-- ===== src/Backtest.antt =====
-- The backtesting engine (backend/backtesting-engine/src/aqros_backtesting_engine/domain).
pub mod Models
pub mod Accounts
pub mod Actions
pub mod Fills
pub mod Stream
pub mod Engine
pub mod Keeping
pub mod Conservation
pub mod Reconciliation
pub mod Fairness
pub mod Profit
pub mod Guards
mod Tests
