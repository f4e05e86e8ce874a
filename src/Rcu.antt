-- ===== src/Rcu.antt =====
-- src/Processor/Component/Rcu.hh: the reorder control unit, with the parts of the processor that it
-- calls. `none` is a failed DASSERT, a null instruction that is dereferenced, or an index past a
-- vector. The children hold the operations of Rcu.cc and the proofs about them.
pub mod Rename
pub mod Allocate
pub mod RollBack
pub mod WriteBack
pub mod Commit
mod Tests
use riscv_cmodel_h.Base.{ℕ, Bool, true, false, List, [], ◌∷◌, ◌++◌}
use riscv_cmodel_h.Insn.{FuncType, alu, RegType, reg_none, InsnState}
use riscv_cmodel_h.LoopQueue
use riscv_cmodel_h.LoopQueue.{LoopQueue}
use riscv_cmodel_h.Registers.RenameTable.{RenameTable}
use riscv_cmodel_h.Registers.BusyList.{BusyList}
use riscv_cmodel_h.Registers.FreeList.{FreeList}
use riscv_cmodel_h.Registers.RegisterFile.{RegisterFile}
use riscv_cmodel_h.Registers.RenameTable
use riscv_cmodel_h.Registers.BusyList
use riscv_cmodel_h.Registers.FreeList
use riscv_cmodel_h.Registers.RegisterFile
use riscv_cmodel_h.Lsq.{Lsq}
use riscv_cmodel_h.ExecContext.{ExecContext}

-- `Rob_entry_t`. Its `insnPtr`, kept for traces, is left out.
pub record RobEntry : Type 0 where
  pub valid : Bool
  pub done : Bool
  pub is_stable : Bool
  pub is_mis_pred : Bool
  pub is_excp : Bool
  pub is_rvc : Bool
  pub pc : ℕ
  pub fu : FuncType
  pub lsq_tag : ℕ
  pub rd_type : RegType
  pub isa_rd : ℕ
  pub phy_rd : ℕ
  pub l_phy_rd : ℕ

abbrev pub blank_entry : RobEntry
blank_entry = record {
  valid = false;
  done = false;
  is_stable = false;
  is_mis_pred = false;
  is_excp = false;
  is_rvc = false;
  pc = 0;
  fu = alu;
  lsq_tag = 0;
  rd_type = reg_none;
  isa_rd = 0;
  phy_rd = 0;
  l_phy_rd = 0;
}

-- `rob_state_t`
pub data RobState : Type 0 where
  rob_idle rob_undo rob_redo rob_wait_for_resume rob_flush_backend : RobState

abbrev pub is_idle : RobState → Bool
is_idle rob_idle = true
is_idle rob_undo = false
is_idle rob_redo = false
is_idle rob_wait_for_resume = false
is_idle rob_flush_backend = false

abbrev pub is_undo : RobState → Bool
is_undo rob_undo = true
is_undo rob_idle = false
is_undo rob_redo = false
is_undo rob_wait_for_resume = false
is_undo rob_flush_backend = false

abbrev pub is_waiting : RobState → Bool
is_waiting rob_wait_for_resume = true
is_waiting rob_idle = false
is_waiting rob_undo = false
is_waiting rob_redo = false
is_waiting rob_flush_backend = false

-- The members of `Rcu`, less the snapshots, which no operation uses.
pub record Rcu : Type 0 where
  pub rename_register : Bool
  pub alloc_width : ℕ
  pub dealloc_width : ℕ
  pub support_rollback : Bool
  pub rob : LoopQueue RobEntry
  pub rob_state : RobState
  pub roll_back_tag : ℕ
  pub excp_cause : ℕ
  pub excp_tval : ℕ
  pub int_regfile : RegisterFile
  pub int_rename_table : RenameTable
  pub int_busylist : BusyList
  pub int_freelist : FreeList

-- `Reset`, with the zero register of the source's template arguments.
unfoldable pub reset : Rcu → Rcu
reset r = record r {
  rob = LoopQueue.reset blank_entry r.rob;
  rob_state = rob_idle;
  roll_back_tag = 0;
  int_regfile = RegisterFile.reset r.int_regfile;
  int_rename_table = RenameTable.reset true r.rename_register r.int_rename_table;
  int_busylist = BusyList.reset true r.rename_register r.int_busylist;
  int_freelist = FreeList.reset true r.int_freelist;
}

-- What `FlushBackWard` and `FlushForward` of Processor.cc are called with.
pub data FlushCall : Type 0 where
  flush_back_ward flush_forward : InsnState → FlushCall

-- The unit with what it reaches through `m_Processor`; the calls to flush stages are listed in order.
pub record Core : Type 0 where
  pub rcu : Rcu
  pub lsq : Lsq
  pub exec_context : ExecContext
  pub do_speculation : Bool
  pub flush_calls : List FlushCall

abbrev pub log_flush : FlushCall → Core → Core
log_flush call c = record c { flush_calls = c.flush_calls ++ (call ∷ []) }

abbrev pub with_rcu : Core → Rcu → Core
with_rcu c r = record c { rcu = r }
