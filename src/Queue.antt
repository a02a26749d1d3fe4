-- ===== src/Queue.antt =====
-- `BaseCore::ProcessMQ` of src/BaseCore.cpp: one check of the two message queues.
pub mod Broker
pub mod Drain
pub mod Process
pub mod Delivery
pub mod Backlog
pub mod Sample
mod Tests
