-- ===== src/Rcu/WriteBack/Defs.antt =====
-- `ReadyForCommit`, `Forwarding`, `WriteBack` and `AGUFastDetect` of src/Processor/Component/Rcu.cc.
use riscv_cmodel_h.Base.{
  ℕ, zero, suc, Bool, true, false, not, ◌&&◌, ◌||◌, Option, some, ◌==◌, ltb, if◌then◌else◌, ◌>>=◌,
}
use riscv_cmodel_h.Insn.{DynInsn, fu_eq, ldu, stu, bru, is_int, state_issue}
use riscv_cmodel_h.LoopQueue
use riscv_cmodel_h.Registers.BusyList
use riscv_cmodel_h.Registers.RegisterFile
use riscv_cmodel_h.Rcu.{
  Rcu, RobEntry, rob_undo, rob_idle, is_idle, is_waiting, Core, with_rcu, log_flush,
  flush_back_ward,
}

-- An entry that may still redirect, or fault.
abbrev pub holds_back : RobEntry → Bool
holds_back e = not e.is_stable && (fu_eq e.fu ldu || (fu_eq e.fu stu || fu_eq e.fu bru))

-- The loop of `ReadyForCommit` from `ptr` on, for `n` entries.
unfoldable pub ready_from : ℕ → ℕ → ℕ → Rcu → Option Bool
ready_from zero ptr tag r = some false
ready_from (suc n) ptr tag r =
    let rest = ready_from n (LoopQueue.get_next_ptr r.rob ptr) tag r in
    if ptr == tag
    then some true
    else LoopQueue.at r.rob ptr >>= λ e. if holds_back e then some false else rest

-- The smaller of the width and the usage bounds the loop.
abbrev pub min : ℕ → ℕ → ℕ
min a b = if ltb a b then a else b

unfoldable pub ready_for_commit : ℕ → Rcu → Option Bool
unfolding ready_from
ready_for_commit tag r =
    if is_idle r.rob_state || LoopQueue.is_older r.rob tag r.roll_back_tag
    then ready_from (min r.dealloc_width r.rob.usage) r.rob.header tag r
    else some (is_waiting r.rob_state && (r.roll_back_tag == tag))

-- `m_Rob[tag]` with some fields changed.
unfoldable pub on_entry : ℕ → (RobEntry → RobEntry) → Rcu → Option Rcu
on_entry tag f r = do
  e ← LoopQueue.at r.rob tag
  q ← LoopQueue.put r.rob tag (f e)
  some (record r { rob = q })

unfoldable pub forwarding : DynInsn → Rcu → Option Rcu
forwarding insn r = do
  f ← RegisterFile.put r.int_regfile insn.phy_rd insn.rd_result
  b ← BusyList.update r.int_busylist insn.phy_rd (λ e. record e { done = true })
  some (record r { int_regfile = f; int_busylist = b })

-- The result of an instruction goes to its register.
unfoldable pub write_result : DynInsn → Rcu → Option Rcu
write_result insn r =
    if is_int insn.rd_type && not (insn.isa_rd == 0)
    then (do
      f ← RegisterFile.put r.int_regfile insn.phy_rd insn.rd_result
      b ←
          BusyList.update r.int_busylist insn.phy_rd
            (λ e. record e { done = true; forwarding = false })
      some (record r { int_regfile = f; int_busylist = b }))
    else some r

-- The redirect that a mispredicted branch asks for, if none older is under way.
abbrev pub mispredict_redirects : DynInsn → Rcu → Bool
mispredict_redirects insn r =
    is_idle r.rob_state
    || (LoopQueue.is_older r.rob insn.rob_tag r.roll_back_tag || (insn.rob_tag == r.roll_back_tag))

-- The branch part of `WriteBack`: whether it asks for a redirect, and the unit behind it.
unfoldable pub write_back_branch : DynInsn → Core → Option (Bool × Core)
unfolding on_entry
write_back_branch insn c =
    if insn.bru_mis_pred
    then (do
      r ← on_entry insn.rob_tag (λ e. record e { is_mis_pred = true }) c.rcu
      some (
          if mispredict_redirects insn r
          then (
            true,
            log_flush (flush_back_ward state_issue)
                (with_rcu c (record r { rob_state = rob_undo; roll_back_tag = insn.rob_tag })),
          )
          else (false, with_rcu c r)))
    else some (
      false,
      if not c.do_speculation
            && (is_waiting c.rcu.rob_state && (insn.rob_tag == c.rcu.roll_back_tag))
          then with_rcu c (record c.rcu { rob_state = rob_idle })
          else c,
    )

-- An exception is noted, and is the one to be taken if none older is under way.
abbrev pub note_exception : Bool → DynInsn → Rcu → Rcu
note_exception first insn r =
    if first
    then record r {
      rob_state = rob_undo;
      roll_back_tag = insn.rob_tag;
      excp_cause = insn.excp.cause;
      excp_tval = insn.excp.tval;
    }
    else r

unfoldable pub write_back_exception : DynInsn → Rcu → Option Rcu
unfolding on_entry
write_back_exception insn r = do
  r' ← on_entry insn.rob_tag (λ e. record e { is_excp = true }) r
  some (
      note_exception
        (is_idle r'.rob_state || LoopQueue.is_older r'.rob insn.rob_tag r'.roll_back_tag) insn r')

-- Whether the tag is one of the entries up to the youngest.
abbrev pub is_current : ℕ → Rcu → Bool
is_current tag r =
    not (LoopQueue.empty r.rob)
    && (LoopQueue.is_older r.rob tag (LoopQueue.get_lastest r.rob)
        || (tag == LoopQueue.get_lastest r.rob))

-- The end of `WriteBack` for an instruction without an exception.
unfoldable pub complete : DynInsn → Bool × Core → Option (Bool × Core)
unfolding write_result
complete insn (redirect, c) = do r ← write_result insn c.rcu; some (redirect, with_rcu c r)

-- What follows the two flags of the entry.
unfoldable pub follow_up : DynInsn → Core → Option (Bool × Core)
unfolding write_back_branch write_back_exception complete
follow_up insn c =
    if insn.excp.valid
    then (do r ← write_back_exception insn c.rcu; some (false, with_rcu c r))
    else (if fu_eq insn.fu bru then write_back_branch insn c else some (false, c)) >>= complete insn

-- What `WriteBack` does when the instruction is in flight.
unfoldable pub write_back_current : DynInsn → Core → Option (Bool × Core)
unfolding on_entry follow_up
write_back_current insn c = do
  r ← on_entry insn.rob_tag (λ e. record e { done = true; is_stable = true }) c.rcu
  follow_up insn (with_rcu c r)

unfoldable pub write_back : DynInsn → Core → Option (Bool × Core)
unfolding write_back_current
write_back insn c =
    if is_current insn.rob_tag c.rcu then write_back_current insn c else some (false, c)

-- `AGUFastDetect`. Its test of the state is the negation of the one in `WriteBack`.
unfoldable pub agu_fast_detect : DynInsn → Rcu → Option Rcu
unfolding on_entry
agu_fast_detect insn r = do
  r' ←
      on_entry insn.rob_tag
        (λ e. record e {
          is_stable = true;
          done =
              (fu_eq insn.fu stu && (insn.agu_addr_ready && insn.agu_data_ready))
              || insn.excp.valid
              || e.done;
          is_excp = insn.excp.valid || e.is_excp;
        })
        r
  some (
      if insn.excp.valid
      then note_exception
          (not (is_idle r'.rob_state) || LoopQueue.is_older r'.rob insn.rob_tag r'.roll_back_tag)
          insn r'
      else r')
