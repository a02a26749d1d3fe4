-- ===== src/Informers.antt =====
-- src/ParentDB.cpp: the table of informers, written from the documents of the main database.
pub mod Json
pub mod Table
pub mod Laws
pub mod Values
pub mod Document
pub mod Update
pub mod Upsert
pub mod Guids
pub mod Memory
pub mod Library
pub mod Sample
mod Tests
