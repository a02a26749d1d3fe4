-- ===== src/Log.antt =====
-- src/Log.cpp: the stream behind `std::clog`, which becomes lines of the system's log.
pub mod Stream
pub mod Lines
pub mod Messages
pub mod Race
pub mod Memory
mod Tests
