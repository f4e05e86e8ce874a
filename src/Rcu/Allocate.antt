-- ===== src/Rcu/Allocate.antt =====
-- `TryAllocate`, `Allocate` and `CreateRobEntry` of src/Processor/Component/Rcu.cc.
pub mod Defs
pub mod Guard
pub mod Take
pub mod Renaming
pub mod Stand
pub mod Entries
pub mod Total
