-- ===== src/Status.antt =====
-- `BaseCore::Status` of src/BaseCore.cpp: the page that shows how the service does.
pub mod Rates
pub mod Page
pub mod Meter
pub mod Sample
mod Tests
