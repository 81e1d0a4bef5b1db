-- ===== src/Repository.antt =====
-- The counter service of src/sma/phase2_counter_service on its tables: repository.py, service.py,
-- validation.py and backfill.py. A session runs on the tables as the other sessions have left them: the
-- rows it reads are locked. What the database refuses of its own is an `IntegrityError` with a text.
-- Metrics are values, log lines are left out.
pub mod Validation
pub mod Reserve
pub mod Assign
pub mod Backfill
mod Tests
