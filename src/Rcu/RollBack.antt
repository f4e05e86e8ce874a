-- ===== src/Rcu/RollBack.antt =====
-- `ReleaseResource`, `RollBack` and `Evaulate` of src/Processor/Component/Rcu.cc: the entries behind the
-- instruction that redirects are taken out again, from the youngest on. The operations are in Defs.
pub mod Defs
pub mod Unwind
pub mod Restore
