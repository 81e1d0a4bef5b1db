-- ===== src/Export.antt =====
-- src/sma/phase6_import_to_sabt: the jobs that export rows to Sabt, their attempts, and the keys under
-- which they are submitted.
pub mod Redis
pub mod Attempts
pub mod Job
pub mod Runner
mod Tests
