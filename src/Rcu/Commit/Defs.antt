-- ===== src/Rcu/Commit/Defs.antt =====
-- `CommitInsn` of src/Processor/Component/Rcu.cc.
use riscv_cmodel_h.Base.{
  ℕ, zero, suc, false, not, ◌&&◌, Option, none, some, ◌==◌, u16, if◌then◌else◌, ◌>>=◌, ◌>>◌, assert,
}
use riscv_cmodel_h.Insn.{
  InsnState, fu_eq, ldu, stu, is_int, state_issue, state_commit, state_dispatch,
}
use riscv_cmodel_h.LoopQueue
use riscv_cmodel_h.Lsq
use riscv_cmodel_h.Registers.FreeList
use riscv_cmodel_h.Registers.BusyList
use riscv_cmodel_h.Registers.RegisterFile
use riscv_cmodel_h.ExecContext
use riscv_cmodel_h.ExecContext.{csr_mepc, csr_mcause, csr_mtval, csr_mtvec}
use riscv_cmodel_h.Rcu.{
  Rcu, RobEntry, rob_flush_backend, is_waiting, Core, with_rcu, log_flush, flush_back_ward,
  flush_forward,
}

-- `Redirect_t` of src/Processor/Pipeline/Pipe_data.hh
pub record Redirect : Type 0 where
  pub stage_id : InsnState
  pub target : ℕ

-- The register that the entry's register replaces is free.
unfoldable pub free_last : RobEntry → Rcu → Option Rcu
free_last entry r =
    if r.rename_register
    then (do
      f ← FreeList.push entry.l_phy_rd r.int_freelist
      b ←
          BusyList.update r.int_busylist entry.l_phy_rd
            (λ e. record e { done = false; allocated = false })
      some (record r { int_freelist = f; int_busylist = b }))
    else some r

-- The result becomes architectural. (The test is on the old physical register, not on the
-- architectural one.)
unfoldable pub commit_register : RobEntry → Core → Option Core
unfolding free_last
commit_register entry c =
    if is_int entry.rd_type && not (entry.l_phy_rd == 0)
    then (do
      value ← RegisterFile.at c.rcu.int_regfile entry.phy_rd
      x ← ExecContext.write_int_reg c.exec_context entry.isa_rd value
      r ← free_last entry c.rcu
      some (record c { rcu = r; exec_context = x }))
    else some c

-- The load or store may leave its queue.
unfoldable pub commit_memory : RobEntry → Lsq.Lsq → Option Lsq.Lsq
commit_memory entry l =
    if fu_eq entry.fu ldu
    then Lsq.commit_load_entry entry.lsq_tag l
    else if fu_eq entry.fu stu
    then Lsq.commit_store_entry entry.lsq_tag l
    else some l

-- An exception that reaches the head of the buffer goes to the trap vector.
unfoldable pub take_trap : RobEntry → Core → Redirect × Core
take_trap entry c =
    let x =
      ExecContext.write_csr
        (ExecContext.write_csr (ExecContext.write_csr c.exec_context csr_mepc entry.pc) csr_mcause
          c.rcu.excp_cause)
        csr_mtval c.rcu.excp_tval in
    (
      record { stage_id = state_commit; target = ExecContext.read_csr x csr_mtvec },
      log_flush (flush_back_ward state_issue) (record c { exec_context = x }),
    )

-- The redirecting instruction reaches the head: what waited behind it goes on.
unfoldable pub resume : RobEntry → ℕ → Option Redirect → Core → Option Redirect × Core
unfolding take_trap
resume entry ptr req c =
    if is_waiting c.rcu.rob_state && (ptr == c.rcu.roll_back_tag)
    then (let c' =
          log_flush (flush_forward state_dispatch)
            (with_rcu c (record c.rcu { rob_state = rob_flush_backend })) in
        if entry.is_excp
        then (let (trap, c'') = take_trap entry c' in (some trap, c''))
        else (req, c'))
    else (req, c)

-- What an entry without an exception does to the registers and the queues.
unfoldable pub commit_result : RobEntry → Core → Option Core
unfolding commit_register commit_memory
commit_result entry c = do
  d ← commit_register entry c
  l ← commit_memory entry d.lsq
  some (record d { lsq = l })

-- The end of a round for a valid entry.
unfoldable pub conclude : RobEntry → ℕ → Option Redirect → Core → Option Redirect × Core
unfolding resume
conclude entry ptr req c =
    let (req', c') = resume entry ptr req c in
    (req', record c' { exec_context = ExecContext.instret_inc c'.exec_context })

-- The entry at the head, if it is valid.
unfoldable pub commit_entry :
    RobEntry → ℕ → Option Redirect → Core → Option (Option Redirect × Core)
unfolding commit_result conclude
commit_entry entry ptr req c =
    if entry.valid
    then (do
      assert entry.done
      c' ← (if entry.is_excp then some c else commit_result entry c)
      some (conclude entry ptr req c'))
    else some (req, c)

-- One round: the entry at the head, which then leaves.
unfoldable pub commit_one : Option Redirect → Core → Option (Option Redirect × Core)
unfolding commit_entry
commit_one req c = do
  let ptr = u16 c.rcu.rob.header
  entry ← LoopQueue.at c.rcu.rob ptr
  (req', c') ← commit_entry entry ptr req c
  (gone, q) ← LoopQueue.pop c'.rcu.rob
  some (req', with_rcu c' (record c'.rcu { rob = q }))

-- `CommitInsn` for a package of `n` instructions, of which it uses the number only.
unfoldable pub commit_insns : ℕ → Option Redirect → Core → Option (Option Redirect × Core)
unfolding commit_one
commit_insns zero req c = some (req, c)
commit_insns (suc n) req c = do (req', c') ← commit_one req c; commit_insns n req' c'

-- The result is `none` for `needRedirect = false`.
unfoldable pub commit_insn : ℕ → Core → Option (Option Redirect × Core)
unfolding commit_insns
commit_insn n c = commit_insns n none c
