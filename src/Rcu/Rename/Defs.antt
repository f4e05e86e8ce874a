-- ===== src/Rcu/Rename/Defs.antt =====
-- `Rename` and `ResovleDependancy` of src/Processor/Component/Rcu.cc, on the package of instructions that
-- are dispatched together.
use riscv_cmodel_h.Base.{
  ℕ, Bool, true, false, not, ◌&&◌, Option, none, some, [], ◌∷◌, ◌==◌, if◌then◌else◌, ◌>>=◌, length,
  zero, suc,
}
use riscv_cmodel_h.Insn.{DynInsn, InsnPkg, reg_eq, is_int}
use riscv_cmodel_h.Registers.RenameTable
use riscv_cmodel_h.Registers.RenameTable.{RenameTable}

-- The round of `Rename` for one instruction.
unfoldable pub rename_insn : Bool → RenameTable → DynInsn → Option DynInsn
rename_insn false table insn =
    some (record insn { phy_rs1 = insn.isa_rs1; phy_rs2 = insn.isa_rs2; l_phy_rd = insn.isa_rd })
rename_insn true table insn = do
  p1 ← RenameTable.at table insn.isa_rs1
  p2 ← RenameTable.at table insn.isa_rs2
  pd ← RenameTable.at table insn.isa_rd
  some (record insn { phy_rs1 = p1; phy_rs2 = p2; l_phy_rd = pd })

-- `Rename` goes over the whole package; a null instruction in it is dereferenced.
unfoldable pub rename : Bool → RenameTable → InsnPkg → Option InsnPkg
unfolding rename_insn
rename renames table [] = some []
rename renames table (none ∷ rest) = none
rename renames table (some insn ∷ rest) = do
  insn' ← rename_insn renames table insn
  rest' ← rename renames table rest
  some (some insn' ∷ rest')

-- An instruction that gets a register of its own, by the test of `ResovleDependancy`.
abbrev pub writes_reg : DynInsn → Bool
writes_reg insn = is_int insn.rd_type && not (insn.isa_rd == 0)

-- The inner round of `ResovleDependancy`: what `insn` changes in a later instruction.
unfoldable pub patch_insn : DynInsn → DynInsn → DynInsn
patch_insn insn later = record later {
  phy_rs1 =
      if reg_eq insn.rd_type later.rs1_type && (insn.isa_rd == later.isa_rs1)
      then insn.phy_rd
      else later.phy_rs1;
  phy_rs2 =
      if reg_eq insn.rd_type later.rs2_type && (insn.isa_rd == later.isa_rs2)
      then insn.phy_rd
      else later.phy_rs2;
  l_phy_rd =
      if reg_eq insn.rd_type later.rd_type && (insn.isa_rd == later.isa_rd)
      then insn.phy_rd
      else later.l_phy_rd;
}

unfoldable pub patch_all : DynInsn → InsnPkg → InsnPkg
unfolding patch_insn
patch_all insn [] = []
patch_all insn (none ∷ rest) = none ∷ patch_all insn rest
patch_all insn (some later ∷ rest) = some (patch_insn insn later) ∷ patch_all insn rest

-- The outer loop, on the package that is left: each instruction in turn patches all behind it.
unfoldable pub patch_by : Option DynInsn → InsnPkg → InsnPkg
unfolding patch_all
patch_by none rest = rest
patch_by (some insn) rest = if writes_reg insn then patch_all insn rest else rest

-- The outer loop, with the rounds that are left: each instruction patches all behind it.
unfoldable pub resovle_from : ℕ → InsnPkg → InsnPkg
unfolding patch_by
resovle_from zero pkg = pkg
resovle_from (suc n) [] = []
resovle_from (suc n) (insn ∷ rest) = insn ∷ resovle_from n (patch_by insn rest)

unfoldable pub resovle_dependancy : InsnPkg → InsnPkg
unfolding resovle_from
resovle_dependancy pkg = resovle_from (length pkg) pkg
