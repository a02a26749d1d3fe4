-- ===== src/Sql.antt =====
-- The texts of the SQL statements: src/ParentDB.cpp builds those that write the table of informers,
-- src/Core_DataBase.cpp the query for an informer.
pub mod Literals
pub mod Format
pub mod Statements
pub mod Query
pub mod Whole
pub mod Pasted
pub mod Cut
pub mod Sample
mod Tests
