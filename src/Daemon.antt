-- ===== src/Daemon.antt =====
-- src/Server.cpp: the service as a daemon.
pub mod Search
pub mod First
pub mod PidFile
pub mod User
pub mod Launch
pub mod Stale
pub mod Detach
mod Tests
