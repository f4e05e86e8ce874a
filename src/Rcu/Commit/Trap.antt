-- ===== src/Rcu/Commit/Trap.antt =====
-- Proofs about `CommitInsn` of src/Processor/Component/Rcu.cc: an exception that reaches the head.
use riscv_cmodel_h.Base.{
  ℕ, ◌+◌, ◌^◌, ◌≤◌, ◌≡◌, refl, ap, ◌∙◌, true, false, Option, none, some, arith, length, ◌==◌, ◌>>=◌,
  u16,
}
use riscv_cmodel_h.Insn.{state_commit, state_issue, state_dispatch}
use riscv_cmodel_h.LoopQueue
use riscv_cmodel_h.LoopQueue.{LoopQueue}
use riscv_cmodel_h.LoopQueue.Valid.{IsValid}
use riscv_cmodel_h.LoopQueue.Refine.{pop_busy}
use riscv_cmodel_h.ExecContext
use riscv_cmodel_h.ExecContext.{csr_mepc, csr_mcause, csr_mtval, csr_mtvec, csr_minstret}
use riscv_cmodel_h.Rcu.{
  RobEntry, Core, with_rcu, is_waiting, rob_flush_backend, log_flush, flush_back_ward,
  flush_forward,
}
use riscv_cmodel_h.Rcu.Commit.Defs.{
  Redirect, take_trap, resume, conclude, commit_entry, commit_one, commit_insns, commit_insn,
}

-- The core in which an exception has been taken.
abbrev trapped : RobEntry → Core → Core
trapped entry c = record c {
  rcu = record c.rcu { rob = LoopQueue.header_inc c.rcu.rob; rob_state = rob_flush_backend };
  exec_context = ExecContext.instret_inc (
      ExecContext.write_csr
        (ExecContext.write_csr (ExecContext.write_csr c.exec_context csr_mepc entry.pc) csr_mcause
          c.rcu.excp_cause)
        csr_mtval c.rcu.excp_tval);
  flush_calls =
      (log_flush (flush_back_ward state_issue)
        (log_flush (flush_forward state_dispatch) c)).flush_calls;
}

abbrev before_pop : RobEntry → Core → Core
before_pop entry c = record (trapped entry c) {
  rcu = record c.rcu { rob_state = rob_flush_backend };
}

commit_entry_trap :
    (entry : RobEntry) (ptr : ℕ) (req : Option Redirect) (c : Core)
    → entry.valid ≡ true
    → entry.done ≡ true
    → entry.is_excp ≡ true
    → is_waiting c.rcu.rob_state ≡ true
    → (ptr == c.rcu.roll_back_tag) ≡ true
    → commit_entry entry ptr req c
      ≡ some (
        some (record {
          stage_id = state_commit;
          target = ExecContext.read_csr c.exec_context csr_mtvec;
        }),
        before_pop entry c,
      )
unfolding commit_entry conclude resume take_trap ExecContext.read_csr ExecContext.write_csr
commit_entry_trap entry ptr req c valid done excp waits here =
    rw (valid, done, excp, waits, here) refl

commit_one_lem :
    (ptr : ℕ) (req req' : Option Redirect) (c d : Core) {entry x : RobEntry}
    {q : LoopQueue RobEntry}
    → u16 c.rcu.rob.header ≡ ptr
    → LoopQueue.at c.rcu.rob ptr ≡ some entry
    → commit_entry entry ptr req c ≡ some (req', d)
    → LoopQueue.pop d.rcu.rob ≡ some (x, q)
    → commit_one req c ≡ some (req', with_rcu d (record d.rcu { rob = q }))
unfolding commit_one
commit_one_lem ptr req req' c d {entry} {x} {q} here at ran popped =
    let finish = λ (r : Option Redirect) (e : Core) (y : RobEntry × LoopQueue RobEntry).
      some (r, with_rcu e (record e.rcu { rob = y.1 })) in
    let pops = λ (y : Option Redirect × Core). LoopQueue.pop y.1.rcu.rob >>= finish y.0 y.1 in
    ap (λ p. LoopQueue.at c.rcu.rob p >>= λ e. commit_entry e p req c >>= pops) here
    ∙ ap (λ o. o >>= λ e. commit_entry e ptr req c >>= pops) at
    ∙ ap (λ o. o >>= pops) ran
    ∙ ap (λ o. o >>= finish req' d) popped

-- What taking a trap leaves, the request that goes to the fetch stage with it.
pub record Traps (entry : RobEntry) (c : Core) : Type 0 where
  pub after : Core
  pub takes :
      commit_insn 1 c
      ≡ some (
        some (record {
          stage_id = state_commit;
          target = ExecContext.read_csr c.exec_context csr_mtvec;
        }),
        after,
      )
  pub epc : ExecContext.read_csr after.exec_context csr_mepc ≡ entry.pc
  pub cause : ExecContext.read_csr after.exec_context csr_mcause ≡ c.rcu.excp_cause
  pub tval : ExecContext.read_csr after.exec_context csr_mtval ≡ c.rcu.excp_tval
  pub registers : after.exec_context.int_isa_reg_file ≡ c.exec_context.int_isa_reg_file
  pub table : after.rcu.int_rename_table ≡ c.rcu.int_rename_table
  pub free : after.rcu.int_freelist ≡ c.rcu.int_freelist
  pub queues : after.lsq ≡ c.lsq
  pub state : after.rcu.rob_state ≡ rob_flush_backend
  pub fewer : after.rcu.rob.usage + 1 ≡ c.rcu.rob.usage

-- The oldest entry is done and has the exception that the roll-back was for. Then its commit succeeds,
-- asks for a redirect to MTVEC, and leaves in MEPC, MCAUSE and MTVAL the pc, the cause and the value of
-- the exception; the registers, the rename table, the free list and the queues are as before.
pub commit_insn-Traps :
    (entry : RobEntry) (c : Core)
    → IsValid c.rcu.rob
    → length c.rcu.rob.data_vec ≤ 2 ^ 16
    → LoopQueue.empty c.rcu.rob ≡ false
    → LoopQueue.front c.rcu.rob ≡ some entry
    → entry.valid ≡ true
    → entry.done ≡ true
    → entry.is_excp ≡ true
    → is_waiting c.rcu.rob_state ≡ true
    → c.rcu.roll_back_tag ≡ c.rcu.rob.header
    → Traps entry c
unfolding commit_insn commit_insns LoopQueue.front ExecContext.read_csr ExecContext.write_csr
    ExecContext.instret_inc
commit_insn-Traps entry c v narrow busy front valid done excp waits here =
    let (x, at, popped, valid', held, fewer) = pop_busy c.rcu.rob v busy in
    let ptr : u16 c.rcu.rob.header ≡ c.rcu.rob.header = omega (arith, v.header_in) in
    let same : (c.rcu.rob.header == c.rcu.roll_back_tag) ≡ true = ground (arith, here) in
    record {
      after = trapped entry c;
      takes =
          ap (λ o. o >>= λ y. some y)
            (commit_one_lem c.rcu.rob.header none _ c (before_pop entry c) ptr front
              (commit_entry_trap entry c.rcu.rob.header none c valid done excp waits same) popped);
      epc = refl;
      cause = refl;
      tval = refl;
      registers = refl;
      table = refl;
      free = refl;
      queues = refl;
      state = refl;
      fewer = fewer;
    }
