-- ===== src/Rcu/Allocate/Defs.antt =====
-- `TryAllocate`, `Allocate` and `CreateRobEntry` of src/Processor/Component/Rcu.cc.
use riscv_cmodel_h.Base.{
  ℕ, zero, suc, ◌+◌, Bool, true, false, not, ◌&&◌, ◌||◌, Option, none, some, [], ◌∷◌, ◌==◌, ltb,
  u16, if◌then◌else◌, ◌>>=◌,
}
use riscv_cmodel_h.Insn.{DynInsn, InsnPkg, is_int, fu_eq, alu, csr, state_issue}
use riscv_cmodel_h.LoopQueue
use riscv_cmodel_h.Registers.FreeList
use riscv_cmodel_h.Registers.BusyList
use riscv_cmodel_h.Registers.RenameTable
use riscv_cmodel_h.Rcu.{
  Rcu, RobEntry, rob_undo, rob_idle, Core, flush_back_ward, log_flush, with_rcu,
}
use riscv_cmodel_h.Rcu.Rename.Defs.{rename, resovle_dependancy}

-- CSR_FENCE and CSR_MRET of src/Processor/DynInsn.hh
abbrev pub csr_fence : ℕ
csr_fence = 9

abbrev pub csr_mret : ℕ
csr_mret = 7

-- Whether the instruction takes a register off the free list.
abbrev pub needs_reg : Rcu → DynInsn → Bool
needs_reg r insn = r.rename_register && (is_int insn.rd_type && not (insn.isa_rd == 0))

-- The loop of `TryAllocate`, with the entries and registers counted so far; the result counts from
-- here on.
unfoldable pub try_allocate_from : Rcu → ℕ → ℕ → InsnPkg → ℕ
try_allocate_from r robs regs [] = 0
try_allocate_from r robs regs (none ∷ rest) = suc (try_allocate_from r robs regs rest)
try_allocate_from r robs regs (some insn ∷ rest) =
    elim (ltb robs (LoopQueue.get_avail_entry_count r.rob)) [
      | true ↦ elim (needs_reg r insn) [
        | true ↦ elim (ltb regs (FreeList.get_avail_entry_count r.int_freelist)) [
          | true ↦ suc (try_allocate_from r (robs + 1) (regs + 1) rest)
          | false ↦ 0
        ]
        | false ↦ suc (try_allocate_from r (robs + 1) regs rest)
      ]
      | false ↦ 0
    ]

unfoldable pub try_allocate : Rcu → InsnPkg → ℕ
unfolding try_allocate_from
try_allocate r pkg = try_allocate_from r 0 0 pkg

-- The first loop of `Allocate`, for one instruction: a new register for its result.
unfoldable pub allocate_reg : DynInsn → Rcu → Option (DynInsn × Rcu)
allocate_reg insn r =
    if needs_reg r insn
    then (do
      (p, f) ← FreeList.pop r.int_freelist
      b ←
          BusyList.update r.int_busylist p
            (λ e. record e { allocated = true; done = false; forwarding = false })
      t ← RenameTable.put r.int_rename_table insn.isa_rd p
      some (
        record insn { phy_rd = p },
        record r { int_freelist = f; int_busylist = b; int_rename_table = t },
      ))
    else some (insn, r)

unfoldable pub allocate_regs : ℕ → InsnPkg → Rcu → Option (InsnPkg × Rcu)
unfolding allocate_reg
allocate_regs zero pkg r = some (pkg, r)
allocate_regs (suc count) [] r = none
allocate_regs (suc count) (none ∷ rest) r = do
  (rest', r') ← allocate_regs count rest r
  some (none ∷ rest', r')
allocate_regs (suc count) (some insn ∷ rest) r = do
  (insn', r') ← allocate_reg insn r
  (rest', r'') ← allocate_regs count rest r'
  some (some insn' ∷ rest', r'')

abbrev pub is_nop : DynInsn → Bool
is_nop insn = fu_eq insn.fu alu && (insn.isa_rd == 0)

abbrev pub is_fence : DynInsn → Bool
is_fence insn = fu_eq insn.fu csr && (insn.sub_op == csr_fence)

abbrev pub is_mret : DynInsn → Bool
is_mret insn = fu_eq insn.fu csr && (insn.sub_op == csr_mret)

-- The entry of an instruction: done from the start if there is nothing to execute.
abbrev pub entry_of : DynInsn → RobEntry
entry_of insn =
    let over = is_nop insn || (insn.excp.valid || (is_fence insn || is_mret insn)) in
    record {
      valid = true;
      done = over;
      is_stable = over;
      is_mis_pred = false;
      is_excp = insn.excp.valid;
      is_rvc = insn.is_rvc_insn;
      pc = insn.pc;
      fu = insn.fu;
      lsq_tag = u16 insn.lsq_tag;
      rd_type = insn.rd_type;
      isa_rd = insn.isa_rd;
      phy_rd = insn.phy_rd;
      l_phy_rd = insn.l_phy_rd;
    }

-- What an exception or a change of control flow does to the unit's state.
abbrev pub redirect_state : DynInsn → ℕ → Rcu → Rcu
redirect_state insn tag r =
    if insn.excp.valid
    then record r {
      rob_state = rob_undo;
      roll_back_tag = tag;
      excp_cause = insn.excp.cause;
      excp_tval = insn.excp.tval;
    }
    else if insn.control_flow_insn
    then record r { rob_state = if is_mret insn then rob_idle else rob_undo; roll_back_tag = tag }
    else r

-- `CreateRobEntry`. The tag is stored through the pointer before the test for null, so a null
-- instruction faults and that test's other branch is never taken.
unfoldable pub create_rob_entry : Option DynInsn → Core → Option (DynInsn × Core)
create_rob_entry none c = none
create_rob_entry (some insn) c = do
  (tag, q) ← LoopQueue.allocate c.rcu.rob
  let insn' = record insn { rob_tag = tag }
  let c' = with_rcu c (redirect_state insn' tag (record c.rcu { rob = q }))
  let c'' = if insn.excp.valid then log_flush (flush_back_ward state_issue) c' else c'
  q' ← LoopQueue.put q tag (entry_of insn')
  some (insn', with_rcu c'' (record c''.rcu { rob = q' }))

unfoldable pub create_rob_entries : ℕ → InsnPkg → Core → Option (InsnPkg × Core)
unfolding create_rob_entry
create_rob_entries zero pkg c = some (pkg, c)
create_rob_entries (suc count) [] c = none
create_rob_entries (suc count) (insn ∷ rest) c = do
  (insn', c') ← create_rob_entry insn c
  (rest', c'') ← create_rob_entries count rest c'
  some (some insn' ∷ rest', c'')

unfoldable pub allocate : InsnPkg → ℕ → Core → Option (InsnPkg × Core)
unfolding allocate_regs create_rob_entries
allocate pkg count c = do
  renamed ← rename c.rcu.rename_register c.rcu.int_rename_table pkg
  (assigned, r) ← allocate_regs count renamed c.rcu
  create_rob_entries count (resovle_dependancy assigned) (with_rcu c r)
