-- ===== src/Schema.antt =====
-- src/DataBase.cpp: the SQLite database, and the SQL files that make its tables.
pub mod Files
pub mod Open
pub mod Starts
pub mod Reindex
mod Tests
