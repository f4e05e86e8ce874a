-- ===== src/Rcu/Tests.antt =====
-- The theorems about src/Processor/Component/Rcu.cc, at small cores: buffers of four entries and eight
-- physical registers.
use riscv_cmodel_h.Base.{
  Bool, zero, suc, ◌<◌, ◌≡◌, ◌↔◌, refl, true, false, none, some, List, [], ◌∷◌, ◌++◌, arith, length,
  replicate, All, map,
}
use riscv_cmodel_h.Insn.{DynInsn, InsnPkg, blank_insn, reg_int, bru, state_issue}
use riscv_cmodel_h.LoopQueue
use riscv_cmodel_h.LoopQueue.{LoopQueue}
use riscv_cmodel_h.LoopQueue.Valid.{IsValid, place}
use riscv_cmodel_h.LoopQueue.Refine.{contents}
use riscv_cmodel_h.LoopQueue.Age.{age_of}
use riscv_cmodel_h.Lsq.{blank_ldq, blank_stq}
use riscv_cmodel_h.Registers.FreeList
use riscv_cmodel_h.ExecContext
use riscv_cmodel_h.Rcu.{
  Rcu, flush_back_ward, RobEntry, blank_entry, Core, rob_idle, rob_undo, rob_wait_for_resume,
}
use riscv_cmodel_h.Rcu.Rename.Defs.{rename, resovle_dependancy}
use riscv_cmodel_h.Rcu.Rename.Sequential.{
  IsTyped, TypedCell, rename_sequential, resovle_dependancy-sequential,
}
use riscv_cmodel_h.Rcu.Allocate.Defs.{allocate, try_allocate, try_allocate_from}
use riscv_cmodel_h.Rcu.Allocate.Guard.{RunsOut, try_allocate_from-RunsOut}
use riscv_cmodel_h.Rcu.Allocate.Take.{HasRegs}
use riscv_cmodel_h.Rcu.Allocate.Total.{Allocates, allocate-Allocates}
use riscv_cmodel_h.Rcu.RollBack.Defs.{roll_back}
use riscv_cmodel_h.Rcu.RollBack.Unwind.{unwind, Behind, Filled, roll_back-unwind}
use riscv_cmodel_h.Rcu.RollBack.Restore.{Restored, release_register-allocate_reg}
use riscv_cmodel_h.Rcu.WriteBack.Defs.{is_current, write_back}
use riscv_cmodel_h.Rcu.WriteBack.Oldest.{is_current_iff, next_tag}
use riscv_cmodel_h.Rcu.WriteBack.Total.{Fits, write_back_never_younger}
use riscv_cmodel_h.Rcu.Commit.Defs.{commit_insn}
use riscv_cmodel_h.Rcu.Commit.Pops.{MayLeave, commit_insn-contents}
use riscv_cmodel_h.Rcu.Commit.Trap.{Traps, commit_insn-Traps}

-- x1 ← x2, and x2 ← x1.
abbrev insn_a : DynInsn
insn_a = record blank_insn { rd_type = reg_int; isa_rd = 1; rs1_type = reg_int; isa_rs1 = 2 }

abbrev insn_b : DynInsn
insn_b = record blank_insn { rd_type = reg_int; isa_rd = 2; rs1_type = reg_int; isa_rs1 = 1 }

abbrev two_insns : InsnPkg
two_insns = some insn_a ∷ some insn_b ∷ []

-- Entries in the buffer: one that is done, and one that has an exception.
abbrev done_entry : RobEntry
done_entry = record blank_entry { valid = true; done = true; is_stable = true }

abbrev excp_entry : RobEntry
excp_entry = record done_entry { is_excp = true; pc = 0x80000010 }

abbrev no_entries : LoopQueue RobEntry
no_entries = record { data_vec = replicate 4 blank_entry; header = 0; tail = 0; usage = 0 }

-- Three entries from place 3 on, round the end.
abbrev three_entries : LoopQueue RobEntry
three_entries = record {
  data_vec = excp_entry ∷ done_entry ∷ blank_entry ∷ done_entry ∷ [];
  header = 3;
  tail = 2;
  usage = 3;
}

abbrev core_of : LoopQueue RobEntry → Core
core_of q = record {
  rcu = record {
    rename_register = true;
    alloc_width = 2;
    dealloc_width = 2;
    support_rollback = true;
    rob = q;
    rob_state = rob_idle;
    roll_back_tag = 0;
    excp_cause = 2;
    excp_tval = 7;
    int_regfile = replicate 8 0;
    int_rename_table = replicate 32 0;
    int_busylist = replicate 8 (record { allocated = false; forwarding = false; done = false });
    int_freelist = record { phy_reg_count = 7; freelist = 1 ∷ 2 ∷ 3 ∷ [] };
  };
  lsq = record {
    d_cache_align_byte = 8;
    store_queue = record { data_vec = replicate 4 blank_stq; header = 0; tail = 0; usage = 0 };
    load_queue = record { data_vec = replicate 4 blank_ldq; header = 0; tail = 0; usage = 0 };
  };
  exec_context = record { int_isa_reg_file = replicate 32 0; csr_reg_file = λ a. a };
  do_speculation = true;
  flush_calls = [];
}

abbrev idle_core : Core
idle_core = core_of no_entries

-- A roll-back to the entry with the exception is under way, or over.
abbrev undo_core : Core
undo_core =
    let c = core_of three_entries in record c { rcu = record c.rcu { rob_state = rob_undo } }

abbrev trap_core : Core
trap_core =
    let c = core_of (record three_entries { header = 0; usage = 2 }) in
    record c { rcu = record c.rcu { rob_state = rob_wait_for_resume } }

insn_a-IsTyped : IsTyped insn_a
insn_a-IsTyped = record {
  rs1 = λ e. ground (arith, e);
  rs2 = λ e. refl;
  rd = λ e. ground (arith, e);
  rs1_in = omega arith;
  rs2_in = omega arith;
  rd_in = omega arith;
}

insn_b-IsTyped : IsTyped insn_b
insn_b-IsTyped = record {
  rs1 = λ e. ground (arith, e);
  rs2 = λ e. refl;
  rd = λ e. ground (arith, e);
  rs1_in = omega arith;
  rs2_in = omega arith;
  rd_in = omega arith;
}

two_insns-typed : All TypedCell two_insns
two_insns-typed = (insn_a-IsTyped, (insn_b-IsTyped, tt))

idle_core-HasRegs : HasRegs idle_core.rcu
idle_core-HasRegs = record {
  table = refl;
  regs_in = (omega arith, (omega arith, (omega arith, tt)));
  few = omega arith;
}

no_entries-IsValid : IsValid no_entries
no_entries-IsValid = record {
  sized = omega arith;
  header_in = omega arith;
  usage_in = omega arith;
  tail_eq = refl;
}

three_entries-IsValid : IsValid three_entries
three_entries-IsValid = record {
  sized = omega arith;
  header_in = omega arith;
  usage_in = omega arith;
  tail_eq = refl;
}

allocate-Allocates_example :
    Allocates
      (try_allocate idle_core.rcu two_insns)
      two_insns
      idle_core
      (allocate two_insns (try_allocate idle_core.rcu two_insns) idle_core)
allocate-Allocates_example =
    allocate-Allocates two_insns idle_core refl two_insns-typed idle_core-HasRegs no_entries-IsValid

-- Both are allocated, and the second reads the register of the first.
two_allocated : try_allocate idle_core.rcu two_insns ≡ 2
unfolding try_allocate FreeList.get_avail_entry_count LoopQueue.get_avail_entry_count
two_allocated = refl

resovle_dependancy-sequential_example :
    (read : InsnPkg) × (rename true (replicate 32 0) two_insns ≡ some read)
    × (resovle_dependancy read ≡ rename_sequential (replicate 32 0) two_insns)
resovle_dependancy-sequential_example =
    resovle_dependancy-sequential (replicate 32 0) two_insns refl two_insns-typed

release_register-allocate_reg_example : Restored insn_a idle_core.rcu 1 (2 ∷ 3 ∷ [])
release_register-allocate_reg_example =
    release_register-allocate_reg insn_a idle_core.rcu 1 (2 ∷ 3 ∷ []) insn_a-IsTyped
      idle_core-HasRegs refl refl refl (omega arith) refl

three_entries-Filled : Filled three_entries
unfolding LoopQueue.at
three_entries-Filled = record {
  valid = three_entries-IsValid;
  narrow = omega arith;
  entries = λ k h.
      elim k
          as (λ j.
            j < 3
            → (e : RobEntry) × (LoopQueue.at three_entries (place 4 3 j) ≡ some e)
              × (e.valid ≡ true)) [
                | zero ↦ λ _. (done_entry, refl, refl)
                | suc m ↦
                    elim m
                      as (λ j.
                        suc j < 3
                        → (e : RobEntry) × (LoopQueue.at three_entries (place 4 3 (suc j)) ≡ some e)
                          × (e.valid ≡ true)) [
                            | zero ↦ λ _. (excp_entry, refl, refl)
                            | suc n ↦
                                elim n
                                  as (λ j.
                                    suc (suc j) < 3
                                    → (e : RobEntry) × (LoopQueue.at three_entries
                                          (place 4 3 (suc (suc j)))
                                        ≡ some e)
                                      × (e.valid ≡ true)) [
                                        | zero ↦ λ _. (done_entry, refl, refl)
                                        | suc o ↦ λ lt. absurd (omega (arith, lt))
                                      ]
                          ]
              ]
        h;
}

undo_core-Behind : Behind 1 1 undo_core
undo_core-Behind = record { filled = three_entries-Filled; tag = refl; count = refl }

roll_back-unwind_example : roll_back undo_core ≡ unwind 2 1 undo_core
roll_back-unwind_example = roll_back-unwind 1 1 undo_core undo_core-Behind

trap_core-IsValid : IsValid trap_core.rcu.rob
trap_core-IsValid = record {
  sized = omega arith;
  header_in = omega arith;
  usage_in = omega arith;
  tail_eq = refl;
}

trap_core_busy : LoopQueue.empty trap_core.rcu.rob ≡ false
unfolding LoopQueue.empty
trap_core_busy = refl

trap_core_front : LoopQueue.front trap_core.rcu.rob ≡ some excp_entry
unfolding LoopQueue.front
trap_core_front = refl

commit_insn-Traps_example : Traps excp_entry trap_core
commit_insn-Traps_example =
    commit_insn-Traps excp_entry trap_core trap_core-IsValid (omega arith) trap_core_busy
      trap_core_front refl refl refl refl refl

-- One entry, done, at place 1.
abbrev done_core : Core
done_core = core_of (record three_entries { header = 1; usage = 1 })

abbrev committed_core : Core
committed_core = record done_core {
  rcu = record done_core.rcu { rob = record three_entries { header = 2; usage = 0 } };
  exec_context = ExecContext.instret_inc done_core.exec_context;
}

done_core-IsValid : IsValid done_core.rcu.rob
done_core-IsValid = record {
  sized = omega arith;
  header_in = omega arith;
  usage_in = omega arith;
  tail_eq = refl;
}

done_core_commits : commit_insn 1 done_core ≡ some (none, committed_core)
unfolding commit_insn LoopQueue.pop LoopQueue.at
done_core_commits = refl

commit_insn-contents_example :
    (gone : List RobEntry) × (length gone ≡ 1)
    × All MayLeave gone
    × (contents done_core.rcu.rob ≡ map some gone ++ contents committed_core.rcu.rob)
    × IsValid committed_core.rcu.rob
commit_insn-contents_example =
    commit_insn-contents 1 none done_core committed_core done_core-IsValid (omega arith)
      done_core_commits

-- A mispredicted branch at place 3, older than the exception at place 0.
abbrev branch : DynInsn
branch = record blank_insn { fu = bru; rob_tag = 3; bru_mis_pred = true }

abbrev redirected_core : Core
redirected_core = record undo_core {
  rcu = record undo_core.rcu {
    rob = record three_entries {
      data_vec =
          excp_entry ∷ done_entry ∷ blank_entry ∷ (record done_entry { is_mis_pred = true }) ∷ [];
    };
    roll_back_tag = 3;
  };
  flush_calls = flush_back_ward state_issue ∷ [];
}

branch_redirects_core : write_back branch undo_core ≡ some (true, redirected_core)
unfolding write_back LoopQueue.empty LoopQueue.is_older LoopQueue.get_lastest LoopQueue.at
    LoopQueue.put
branch_redirects_core = refl

branch-Fits : Fits branch undo_core.rcu
branch-Fits = record { tag = omega arith; reg = omega arith; busy = omega arith }

write_back_never_younger_example :
    (x : Bool × Core) × (write_back branch undo_core ≡ some x)
    × (x.1.rcu.roll_back_tag ≡ next_tag branch undo_core.rcu)
write_back_never_younger_example =
    write_back_never_younger branch undo_core three_entries-IsValid branch-Fits (omega arith) refl

is_current_iff_example :
    (is_current 1 undo_core.rcu ≡ true) ↔ (age_of undo_core.rcu.rob 1 < undo_core.rcu.rob.usage)
is_current_iff_example = is_current_iff undo_core.rcu 1 three_entries-IsValid (omega arith)

-- One register, for two instructions that want one.
abbrev short_core : Rcu
short_core = record idle_core.rcu { int_freelist = record { phy_reg_count = 7; freelist = 1 ∷ [] } }

short_stops : try_allocate_from short_core 0 0 two_insns < 2
unfolding try_allocate_from LoopQueue.get_avail_entry_count FreeList.get_avail_entry_count
short_stops = omega arith

try_allocate_from-RunsOut_example :
    RunsOut short_core 0 0 (try_allocate_from short_core 0 0 two_insns) two_insns
try_allocate_from-RunsOut_example =
    try_allocate_from-RunsOut short_core 0 0 two_insns (omega arith) (omega arith) short_stops
