-- ===== src/Registers.antt =====
-- The register bookkeeping of the reorder unit: src/Processor/Component/FreeList.hh, BusyList.hh,
-- RenameTable.hh and RegisterFile.hh, each in a child module. They are used qualified.
pub mod FreeList
pub mod BusyList
pub mod RenameTable
pub mod RegisterFile
pub mod Supply
mod Tests
