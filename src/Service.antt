-- ===== src/Service.antt =====
-- The parts of the service put together: the settings of a file, a check of the queues, the requests
-- behind them.
pub mod Wiring
pub mod Updated
pub mod Configured
mod Tests
