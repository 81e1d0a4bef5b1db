-- ===== src/Domain.antt =====
-- src/sma/domain: the allocation rules, the fairness strategies and the engine that selects a mentor.
pub mod Rules
pub mod Fairness
pub mod Engine
mod Tests
