-- ===== src/Phase3.antt =====
-- The phase 3 allocation of sma/phase3_allocation: normalised students and mentors, the eligibility
-- rules, the policy that runs them, and the engine that picks a mentor.
pub mod Contracts
pub mod Rules
pub mod Normalize
pub mod Policy
pub mod Engine
mod Tests
