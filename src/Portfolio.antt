-- ===== src/Portfolio.antt =====
-- The portfolio service (backend/portfolio), domain/models.py: cash balances, positions and
-- portfolios. The other modules have the proofs.
pub mod Cash
pub mod Position
pub mod Account
pub mod Closing
pub mod Resizing
mod Tests
