-- ===== src/Affinity.antt =====
-- source/processor_affinity.cpp and source/platform/linux/processor_affinity.cpp: sets of processors.
pub mod Mask
pub mod CpuSet
pub mod Win32
mod Tests
