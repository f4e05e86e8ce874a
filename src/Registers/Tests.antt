-- ===== src/Registers/Tests.antt =====
-- The theorem about src/Processor/Component/FreeList.hh, at eight registers.
use riscv_cmodel_h.Base.{true, ◌≡◌, ◌-◌, ◌&&◌, ltb, leb, arith}
use riscv_cmodel_h.Registers.FreeList
use riscv_cmodel_h.Registers.FreeList.{contains}
use riscv_cmodel_h.Registers.Supply.{contains-reset}

contains-reset_example :
    contains 7 (FreeList.reset true (FreeList.construct true 8)).freelist
    ≡ (leb 1 7 && ltb 7 (8 - 1))
contains-reset_example = contains-reset 8 7 (omega arith) (omega arith)
