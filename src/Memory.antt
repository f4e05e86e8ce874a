-- ===== src/Memory.antt =====
-- The memory behind the caches: Dram is src/Memory/BaseDRAM.cc.
pub mod Dram
