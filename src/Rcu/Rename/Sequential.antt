-- ===== src/Rcu/Rename/Sequential.antt =====
-- Renaming a whole package at once, as src/Processor/Component/Rcu.cc does it, against renaming its
-- instructions one after the other.
use riscv_cmodel_h.Base.{
  ℕ, zero, suc, ◌≤◌, ◌<◌, ◌≡◌, ◌≢◌, refl, ap, ap₂, ◌∙◌, sym, true, false, ◌&&◌, ◌==◌, ==_iff,
  Option, none, some, [], ◌∷◌, arith, if◌then◌else◌, length, length-set, set, get_or,
  get_or-set_self, get_or-set_ne, get_elem?-eq-get_or, All, Bool-cases, inl, inr,
}
use native.Mathlib.Decide.{ℕ_discrete}
use riscv_cmodel_h.Insn.{DynInsn, InsnPkg, RegType, reg_none, reg_int, reg_eq}
use riscv_cmodel_h.Registers.RenameTable
use riscv_cmodel_h.Registers.RenameTable.{RenameTable}
use riscv_cmodel_h.Rcu.Rename.Defs.{
  rename, writes_reg, patch_insn, patch_all, patch_by, resovle_from, resovle_dependancy,
}

-- An operand that is no register has the number 0, and every number is one of the table's 32.
pub record IsTyped (insn : DynInsn) : Type 0 where
  pub rs1 : insn.rs1_type ≡ reg_none → insn.isa_rs1 ≡ 0
  pub rs2 : insn.rs2_type ≡ reg_none → insn.isa_rs2 ≡ 0
  pub rd : insn.rd_type ≡ reg_none → insn.isa_rd ≡ 0
  pub rs1_in : insn.isa_rs1 < 32
  pub rs2_in : insn.isa_rs2 < 32
  pub rd_in : insn.isa_rd < 32

-- An instruction is there, and is typed.
abbrev pub TypedCell : Option DynInsn → Type 0
TypedCell none = ⊥
TypedCell (some insn) = IsTyped insn

-- The operands of an instruction as the table gives them.
abbrev pub read_operands : RenameTable → DynInsn → DynInsn
read_operands t insn = record insn {
  phy_rs1 = get_or t insn.isa_rs1 0;
  phy_rs2 = get_or t insn.isa_rs2 0;
  l_phy_rd = get_or t insn.isa_rd 0;
}

-- The table behind an instruction whose own register is `phy_rd`.
abbrev pub table_after : RenameTable → DynInsn → RenameTable
table_after t insn = if writes_reg insn then set t insn.isa_rd insn.phy_rd else t

-- One instruction after the other: each reads the table that those before it have left.
unfoldable pub rename_sequential : RenameTable → InsnPkg → InsnPkg
rename_sequential t [] = []
rename_sequential t (none ∷ rest) = none ∷ rename_sequential t rest
rename_sequential t (some insn ∷ rest) =
    some (read_operands t insn) ∷ rename_sequential (table_after t insn) rest

abbrev pub read_all : RenameTable → InsnPkg → InsnPkg
read_all t [] = []
read_all t (none ∷ rest) = none ∷ read_all t rest
read_all t (some insn ∷ rest) = some (read_operands t insn) ∷ read_all t rest

-- One operand: the patch by an instruction that writes `rd` is the read of the table behind it.
operand_patched :
    (t : RenameTable) (rd p r : ℕ) (type : RegType)
    → rd ≢ 0
    → rd < length t
    → (type ≡ reg_none → r ≡ 0)
    → (if reg_eq reg_int type && (rd == r) then p else get_or t r 0) ≡ get_or (set t rd p) r 0
operand_patched t rd p r reg_none ne lt h = sym (get_or-set_ne t rd r p 0 (λ e. ne (e ∙ h refl)))
operand_patched t rd p r reg_int ne lt h = elim (ℕ_discrete rd r) [
  | yes e ↦ rw ((==_iff rd r).1 e) (rw (← e) (sym (get_or-set_self t rd p 0 lt)))
  | no other ↦
      let off : (rd == r) ≡ false = ground arith in rw off (sym (get_or-set_ne t rd r p 0 other))
]

patch_insn-read_operands :
    (t : RenameTable) (insn later : DynInsn)
    → length t ≡ 32
    → insn.rd_type ≡ reg_int
    → insn.isa_rd ≢ 0
    → insn.isa_rd < 32
    → IsTyped later
    → patch_insn insn (read_operands t later) ≡ read_operands (set t insn.isa_rd insn.phy_rd) later
unfolding patch_insn
patch_insn-read_operands t insn later len type ne lt v = rw type (λ i. record later {
  phy_rs1 =
      operand_patched t insn.isa_rd insn.phy_rd later.isa_rs1 later.rs1_type ne (rw len lt) v.rs1 i;
  phy_rs2 =
      operand_patched t insn.isa_rd insn.phy_rd later.isa_rs2 later.rs2_type ne (rw len lt) v.rs2 i;
  l_phy_rd =
      operand_patched t insn.isa_rd insn.phy_rd later.isa_rd later.rd_type ne (rw len lt) v.rd i;
})

patch_all-read_all :
    (t : RenameTable) (insn : DynInsn) (rest : InsnPkg)
    → length t ≡ 32
    → insn.rd_type ≡ reg_int
    → insn.isa_rd ≢ 0
    → insn.isa_rd < 32
    → All TypedCell rest
    → patch_all insn (read_all t rest) ≡ read_all (set t insn.isa_rd insn.phy_rd) rest
unfolding patch_all
patch_all-read_all t insn [] len type ne lt v = refl
patch_all-read_all t insn (none ∷ rest) len type ne lt v = elim v.0 [ ]
patch_all-read_all t insn (some later ∷ rest) len type ne lt v =
    ap₂ (λ a b. some a ∷ b) (patch_insn-read_operands t insn later len type ne lt v.0)
      (patch_all-read_all t insn rest len type ne lt v.1)

patch_by-read_all :
    (t : RenameTable) (insn : DynInsn) (rest : InsnPkg)
    → length t ≡ 32
    → IsTyped insn
    → All TypedCell rest
    → patch_by (some (read_operands t insn)) (read_all t rest) ≡ read_all (table_after t insn) rest
unfolding patch_by
patch_by-read_all t insn rest len v vs = elim (Bool-cases (writes_reg insn)) [
  | inl writes ↦ rw writes (
      patch_all-read_all t (read_operands t insn) rest len (ground arith) (ground arith) v.rd_in vs)
  | inr idle ↦ rw idle
]

length-table_after : (t : RenameTable) (insn : DynInsn) → length (table_after t insn) ≡ length t
length-table_after t insn = ground (arith, length-set t insn.isa_rd insn.phy_rd)

resovle_from-sequential :
    (n : ℕ) (t : RenameTable) (pkg : InsnPkg)
    → length pkg ≤ n
    → length t ≡ 32
    → All TypedCell pkg
    → resovle_from n (read_all t pkg) ≡ rename_sequential t pkg
unfolding resovle_from rename_sequential
resovle_from-sequential zero t [] h len v = refl
resovle_from-sequential zero t (insn ∷ rest) h len v = absurd (omega arith)
resovle_from-sequential (suc n) t [] h len v = refl
resovle_from-sequential (suc n) t (none ∷ rest) h len v = elim v.0 [ ]
resovle_from-sequential (suc n) t (some insn ∷ rest) h len v =
    ap (λ xs. some (read_operands t insn) ∷ xs)
      (ap (resovle_from n) (patch_by-read_all t insn rest len v.0 v.1)
        ∙ resovle_from-sequential n (table_after t insn) rest (omega arith)
            (length-table_after t insn ∙ len) v.1)

length-read_all : (t : RenameTable) (pkg : InsnPkg) → length (read_all t pkg) ≡ length pkg
length-read_all t [] = refl
length-read_all t (none ∷ rest) = ap suc (length-read_all t rest)
length-read_all t (some insn ∷ rest) = ap suc (length-read_all t rest)

pub rename-read_all :
    (t : RenameTable) (pkg : InsnPkg)
    → length t ≡ 32
    → All TypedCell pkg
    → rename true t pkg ≡ some (read_all t pkg)
unfolding rename RenameTable.at
rename-read_all t [] len v = refl
rename-read_all t (none ∷ rest) len v = elim v.0 [ ]
rename-read_all t (some insn ∷ rest) len v = rw (
  get_elem?-eq-get_or t insn.isa_rs1 0 (rw len v.0.rs1_in),
  get_elem?-eq-get_or t insn.isa_rs2 0 (rw len v.0.rs2_in),
  get_elem?-eq-get_or t insn.isa_rd 0 (rw len v.0.rd_in),
  rename-read_all t rest len v.1,
)

pub resovle_dependancy-read_all :
    (t : RenameTable) (pkg : InsnPkg)
    → length t ≡ 32
    → All TypedCell pkg
    → resovle_dependancy (read_all t pkg) ≡ rename_sequential t pkg
unfolding resovle_dependancy
resovle_dependancy-read_all t pkg len v =
    rw (length-read_all t pkg) (resovle_from-sequential (length pkg) t pkg (omega arith) len v)

-- A package of typed instructions with the operands read off one table, as `Rename` leaves it, comes
-- out of `ResovleDependancy` as if its instructions had been renamed one after the other, each on
-- the table that those before it have left.
pub resovle_dependancy-sequential :
    (t : RenameTable) (pkg : InsnPkg)
    → length t ≡ 32
    → All TypedCell pkg
    → (read : InsnPkg) × (rename true t pkg ≡ some read)
      × (resovle_dependancy read ≡ rename_sequential t pkg)
resovle_dependancy-sequential t pkg len v =
    (read_all t pkg, rename-read_all t pkg len v, resovle_dependancy-read_all t pkg len v)
