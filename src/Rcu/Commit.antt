-- ===== src/Rcu/Commit.antt =====
-- `CommitInsn` of src/Processor/Component/Rcu.cc.
pub mod Defs
pub mod Pops
pub mod Trap
