-- ===== src/Startup.antt =====
-- How the service starts: src/main.cpp, and the constructor of `BaseCore` in src/BaseCore.cpp.
pub mod Options
pub mod Served
pub mod Queues
pub mod Unconnected
mod Tests
