-- ===== src/Config.antt =====
-- src/Config.cpp: the settings, read from an XML file.
pub mod Fields
pub mod Steps
pub mod Load
pub mod Rules
pub mod Required
pub mod Expected
pub mod Fragments
pub mod Sections
pub mod Refinement
pub mod Geo
pub mod Returned
pub mod Sample
mod Tests
