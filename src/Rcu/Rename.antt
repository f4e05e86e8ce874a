-- ===== src/Rcu/Rename.antt =====
-- `Rename` and `ResovleDependancy` of src/Processor/Component/Rcu.cc.
pub mod Defs
pub mod Sequential
