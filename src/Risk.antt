-- ===== src/Risk.antt =====
-- The risk engine (backend/risk-engine). `Numbers` is what it uses of Python's floats, `Models` has
-- the data of domain/models.py, `Drawdown`, `Breaker` and `Statistics` the objects with state,
-- `Rules` the rules of domain/rules.py, `Sizing` the strategies of domain/sizing.py, and `Pipeline`
-- the evaluation of a signal in domain/pipeline.py.
pub mod Numbers
pub mod Models
pub mod Drawdown
pub mod Breaker
pub mod Statistics
pub mod Rules
pub mod Sizing
pub mod Pipeline
mod Samples
mod Tests
