-- ===== src/Helpers.antt =====
-- src/BoostHelpers.cpp: the check of a path, and the reading of a time.
pub mod Path
pub mod Accessible
pub mod Clock
mod Tests
