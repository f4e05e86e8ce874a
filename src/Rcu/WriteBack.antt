-- ===== src/Rcu/WriteBack.antt =====
-- `ReadyForCommit`, `Forwarding`, `WriteBack` and `AGUFastDetect` of src/Processor/Component/Rcu.cc.
pub mod Defs
pub mod Oldest
pub mod Total
