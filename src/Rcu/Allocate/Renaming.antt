-- ===== src/Rcu/Allocate/Renaming.antt =====
-- Proofs about src/Processor/Component/Rcu.cc: the registers that the first loop of `Allocate` gives out, and the
-- package and the table behind it.
use riscv_cmodel_h.Base.{
  ℕ, zero, suc, ◌+◌, ◌≤◌, ◌≡◌, refl, ap, ◌∙◌, true, false, Option, none, some, List, [], ◌∷◌, arith,
  length, get_or, All, if◌then◌else◌, Bool-cases, inl, inr, take, drop,
}
use riscv_cmodel_h.Insn.{DynInsn, InsnPkg}
use riscv_cmodel_h.Registers.RenameTable.{RenameTable}
use riscv_cmodel_h.Rcu.{Rcu}
use riscv_cmodel_h.Rcu.Rename.Defs.{writes_reg}
use riscv_cmodel_h.Rcu.Allocate.Defs.{needs_reg, allocate_reg, allocate_regs}
use riscv_cmodel_h.Rcu.Allocate.Guard.{reg_demand}
use riscv_cmodel_h.Rcu.Allocate.Take.{HasRegs, TakesReg, allocate_reg-TakesReg}
use riscv_cmodel_h.Rcu.Rename.Sequential.{IsTyped, TypedCell, read_operands, read_all, table_after}

-- The first `k` instructions of a package with the registers of a list, in order.
abbrev pub assign : ℕ → List ℕ → InsnPkg → InsnPkg
assign zero free pkg = pkg
assign (suc k) free [] = []
assign (suc k) free (none ∷ rest) = none ∷ assign k free rest
assign (suc k) free (some insn ∷ rest) =
    if writes_reg insn
    then some (record insn { phy_rd = get_or free 0 0 }) ∷ assign k (drop 1 free) rest
    else some insn ∷ assign k free rest

-- The table behind a list of instructions.
abbrev pub table_behind : RenameTable → InsnPkg → RenameTable
table_behind t [] = t
table_behind t (none ∷ rest) = table_behind t rest
table_behind t (some insn ∷ rest) = table_behind (table_after t insn) rest

pub record TakesRegs (k : ℕ) (t : RenameTable) (pkg : InsnPkg) (r : Rcu)
    (o : Option (InsnPkg × Rcu)) : Type 0 where
  pub after : Rcu
  pub returns : o ≡ some (read_all t (assign k r.int_freelist.freelist pkg), after)
  pub free :
      length after.int_freelist.freelist + reg_demand true k pkg ≡ length r.int_freelist.freelist
  pub table :
      after.int_rename_table
      ≡ table_behind r.int_rename_table (take k (assign k r.int_freelist.freelist pkg))
  pub regs : HasRegs after
  pub same_rob : after.rob ≡ r.rob
  pub same_mode : after.rename_register ≡ r.rename_register

allocate_regs-suc :
    (k : ℕ) (insn : DynInsn) (rest : InsnPkg) (r : Rcu) {insn' : DynInsn} {rest' : InsnPkg}
    {r' r'' : Rcu}
    → allocate_reg insn r ≡ some (insn', r')
    → allocate_regs k rest r' ≡ some (rest', r'')
    → allocate_regs (suc k) (some insn ∷ rest) r ≡ some (some insn' ∷ rest', r'')
unfolding allocate_regs
allocate_regs-suc k insn rest r e f = rw (e, f)

allocate_reg-idle :
    (insn : DynInsn) (r : Rcu) → needs_reg r insn ≡ false → allocate_reg insn r ≡ some (insn, r)
unfolding allocate_reg
allocate_reg-idle insn r e = rw e

-- An instruction that writes a register, and the instructions behind it.
TakesRegs-writes :
    {k : ℕ} {t : RenameTable} {insn : DynInsn} {rest : InsnPkg} {r : Rcu}
    → writes_reg insn ≡ true
    → (h : TakesReg (read_operands t insn) r (allocate_reg (read_operands t insn) r))
    → TakesRegs k t rest h.after (allocate_regs k (read_all t rest) h.after)
    → TakesRegs
        (suc k)
        t
        (some insn ∷ rest)
        r
        (allocate_regs (suc k) (read_all t (some insn ∷ rest)) r)
TakesRegs-writes {k} {t} {insn} {rest} {r} w h ih = record {
  after = ih.after;
  returns =
      allocate_regs-suc k (read_operands t insn) (read_all t rest) r h.returns ih.returns
      ∙ rw (h.from, w) refl;
  free = rw (h.from, w) (omega (arith, ih.free));
  table = ih.table ∙ rw (h.from, w) (rw (h.table, w) refl);
  regs = ih.regs;
  same_rob = ih.same_rob ∙ h.same_rob;
  same_mode = ih.same_mode ∙ h.same_mode;
}

TakesRegs-idle :
    {k : ℕ} {t : RenameTable} {insn : DynInsn} {rest : InsnPkg} {r : Rcu}
    → writes_reg insn ≡ false
    → needs_reg r insn ≡ false
    → TakesRegs k t rest r (allocate_regs k (read_all t rest) r)
    → TakesRegs
        (suc k)
        t
        (some insn ∷ rest)
        r
        (allocate_regs (suc k) (read_all t (some insn ∷ rest)) r)
TakesRegs-idle {k} {t} {insn} {rest} {r} w n ih = record {
  after = ih.after;
  returns =
      allocate_regs-suc k (read_operands t insn) (read_all t rest) r
        (allocate_reg-idle (read_operands t insn) r n) ih.returns
      ∙ rw w refl;
  free = rw w ih.free;
  table = ih.table ∙ rw w (rw w refl);
  regs = ih.regs;
  same_rob = ih.same_rob;
  same_mode = ih.same_mode;
}

reg_demand-writes :
    (k : ℕ) (insn : DynInsn) (rest : InsnPkg) {n : ℕ}
    → writes_reg insn ≡ true
    → reg_demand true (suc k) (some insn ∷ rest) ≤ n
    → suc (reg_demand true k rest) ≤ n
reg_demand-writes k insn rest w h = ground arith

reg_demand-idle :
    (k : ℕ) (insn : DynInsn) (rest : InsnPkg) {n : ℕ}
    → writes_reg insn ≡ false
    → reg_demand true (suc k) (some insn ∷ rest) ≤ n
    → reg_demand true k rest ≤ n
reg_demand-idle k insn rest w h = ground arith

read_operands-IsTyped :
    (t : RenameTable) (insn : DynInsn) → IsTyped insn → IsTyped (read_operands t insn)
read_operands-IsTyped t insn v = record {
  rs1 = v.rs1;
  rs2 = v.rs2;
  rd = v.rd;
  rs1_in = v.rs1_in;
  rs2_in = v.rs2_in;
  rd_in = v.rd_in;
}

pub allocate_regs-TakesRegs :
    (k : ℕ) (t : RenameTable) (pkg : InsnPkg) (r : Rcu)
    → r.rename_register ≡ true
    → All TypedCell pkg
    → HasRegs r
    → k ≤ length pkg
    → reg_demand true k pkg ≤ length r.int_freelist.freelist
    → TakesRegs k t pkg r (allocate_regs k (read_all t pkg) r)
unfolding allocate_regs
allocate_regs-TakesRegs zero t pkg r mode v regs le few = record {
  after = r;
  returns = refl;
  free = omega arith;
  table = refl;
  regs = regs;
  same_rob = refl;
  same_mode = refl;
}
allocate_regs-TakesRegs (suc k) t [] r mode v regs le few = absurd (omega arith)
allocate_regs-TakesRegs (suc k) t (none ∷ rest) r mode v regs le few = elim v.0 [ ]
allocate_regs-TakesRegs (suc k) t (some insn ∷ rest) r mode v regs le few =
    elim (Bool-cases (writes_reg insn)) [
      | inl w ↦
          let less = reg_demand-writes k insn rest w few in
          let h =
            allocate_reg-TakesReg (read_operands t insn) r (read_operands-IsTyped t insn v.0) regs
              (rw (mode, w) refl) (omega arith) in
          TakesRegs-writes w h (
            allocate_regs-TakesRegs k t rest h.after (h.same_mode ∙ mode) v.1 h.regs (omega arith)
              (omega (arith, less, ap length h.from)))
      | inr w ↦ TakesRegs-idle w (rw (mode, w) refl) (
          allocate_regs-TakesRegs k t rest r mode v.1 regs (omega arith)
            (reg_demand-idle k insn rest w few))
    ]
