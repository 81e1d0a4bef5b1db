-- ===== src/Atomic.antt =====
-- src/sma/phase3_allocation/allocation_tx.py and uow.py: one allocation attempt inside a unit of
-- work, the identifiers it takes, and the retries around it.
pub mod Types
pub mod Sequence
pub mod Attempt
pub mod Allocate
mod Tests
