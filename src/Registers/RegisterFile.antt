-- ===== src/Registers/RegisterFile.antt =====
-- src/Processor/Component/RegisterFile.hh: the values of the physical registers. `none` is an index
-- past the file.
use riscv_cmodel_h.Base.{
  ℕ, Option, none, some, List, ltb, if◌then◌else◌, length, get_elem?, set, map,
}

abbrev pub RegisterFile : Type 0
RegisterFile = List ℕ

unfoldable pub at : RegisterFile → ℕ → Option ℕ
at r i = get_elem? r i

unfoldable pub put : RegisterFile → ℕ → ℕ → Option RegisterFile
put r i v = if ltb i (length r) then some (set r i v) else none

-- `for(auto reg : m_Regs) reg = 0`: `reg` is a copy of each element, so the file stays as it is.
unfoldable pub reset : RegisterFile → RegisterFile
reset r = map (λ reg. reg) r
