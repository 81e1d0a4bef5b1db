-- ===== src/Sabt.antt =====
-- src/sma/phase6_import_to_sabt: the external sorter of the exports, with the text rules it applies.
pub mod Merge
pub mod Sorter
mod Tests
