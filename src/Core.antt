-- ===== src/Core.antt =====
-- src/Core.cpp, src/Core_DataBase.cpp, src/Informer.cpp and src/Params.cpp: one request for an informer.
pub mod Params
pub mod Informer
pub mod State
pub mod Process
pub mod Balance
pub mod Fresh
pub mod Sample
pub mod Counter
mod Tests
