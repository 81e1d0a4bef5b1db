-- ===== src/Outbox.antt =====
-- src/sma/phase3_allocation/outbox: the outbox of allocation events, and the dispatcher that publishes
-- them.
pub mod Backoff
pub mod Dispatch
mod Tests
