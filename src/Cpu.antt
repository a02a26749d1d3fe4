-- ===== src/Cpu.antt =====
-- src/CpuStat.cpp: what the service measures of its own use of the processor and the memory.
pub mod Measure
pub mod Path
mod Tests
