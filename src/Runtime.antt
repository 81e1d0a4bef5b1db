-- ===== src/Runtime.antt =====
-- src/sma/phase2_counter_service/counter_runtime.py on src/sma/hardened_api/redis_support.py: the
-- script that assigns a counter on the server, the executor that retries it, and the loop that waits.
pub mod Script
pub mod Executor
pub mod Allocate
pub mod Request
mod Tests
