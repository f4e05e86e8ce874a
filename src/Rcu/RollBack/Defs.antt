-- ===== src/Rcu/RollBack/Defs.antt =====
-- `ReleaseResource`, `RollBack` and `Evaulate` of src/Processor/Component/Rcu.cc.
use riscv_cmodel_h.Base.{
  ℕ, zero, suc, ◌-◌, Bool, true, false, not, ◌&&◌, ◌||◌, Option, none, some, ◌==◌, ltb, u16,
  if◌then◌else◌, ◌>>=◌,
}
use riscv_cmodel_h.Insn.{fu_eq, ldu, stu, is_int}
use riscv_cmodel_h.LoopQueue
use riscv_cmodel_h.Lsq
use riscv_cmodel_h.Registers.FreeList
use riscv_cmodel_h.Registers.BusyList
use riscv_cmodel_h.Registers.RenameTable
use riscv_cmodel_h.Rcu.{
  Rcu, RobEntry, RobState, rob_undo, rob_idle, rob_wait_for_resume, rob_flush_backend, rob_redo,
  is_undo, Core, with_rcu,
}

-- The part of `ReleaseResource` for a processor that renames.
unfoldable pub restore_register : RobEntry → Rcu → Option Rcu
restore_register entry r =
    if r.rename_register
    then (do
      b ← BusyList.update r.int_busylist entry.phy_rd (λ e. record e { allocated = false })
      t ← RenameTable.put r.int_rename_table entry.isa_rd entry.l_phy_rd
      some (record r { int_busylist = b; int_rename_table = t }))
    else some r

-- What `ReleaseResource` does to the registers: the entry's register is free again, and its
-- architectural register has the one from before.
unfoldable pub release_register : RobEntry → Rcu → Option Rcu
unfolding restore_register
release_register entry r =
    if is_int entry.rd_type && not (entry.phy_rd == 0)
    then (do
      f ← FreeList.push entry.phy_rd r.int_freelist
      b ←
          BusyList.update r.int_busylist entry.phy_rd
            (λ e. record e { forwarding = false; done = false })
      restore_register entry (record r { int_freelist = f; int_busylist = b }))
    else some r

-- What it does to the load and store queues.
unfoldable pub release_memory : RobEntry → Lsq.Lsq → Option Lsq.Lsq
release_memory entry l =
    if fu_eq entry.fu ldu
    then Lsq.kill_load_entry entry.lsq_tag l
    else if fu_eq entry.fu stu
    then Lsq.kill_store_entry entry.lsq_tag l
    else some l

unfoldable pub release_resource : ℕ → Core → Option Core
unfolding release_register release_memory
release_resource tag c = do
  entry ← LoopQueue.at c.rcu.rob tag
  r ← release_register entry c.rcu
  l ← release_memory entry c.lsq
  some (record c { rcu = r; lsq = l })

-- `m_Rob.RollBack()`
unfoldable pub drop_youngest : Core → Option Core
drop_youngest c = do q ← LoopQueue.roll_back c.rcu.rob; some (with_rcu c (record c.rcu { rob = q }))

-- At the redirecting instruction the roll-back is over; an exception takes its register back too.
unfoldable pub finish : RobEntry → ℕ → Core → Option Core
unfolding release_resource
finish entry ptr c =
    let c' = with_rcu c (record c.rcu { rob_state = rob_wait_for_resume }) in
    if entry.is_excp then release_resource ptr c' else some c'

-- `i < m_AllocWidth && isOlder(m_RollBackTag, RobPtr) || RobPtr == m_RollBackTag`, where the rounds
-- that are left stand for `i < m_AllocWidth`.
abbrev pub goes_on : ℕ → ℕ → Rcu → Bool
goes_on rounds ptr r =
    (ltb 0 rounds && LoopQueue.is_older r.rob r.roll_back_tag ptr) || (ptr == r.roll_back_tag)

-- The body of the loop at an entry: `next` is the loop's next round.
abbrev pub at_entry : (Core → Option Core) → RobEntry → ℕ → Core → Option Core
at_entry next entry ptr c =
    if entry.valid
    then (if ptr == c.rcu.roll_back_tag
        then finish entry ptr c
        else release_resource ptr c >>= λ c'. drop_youngest c' >>= next)
    else drop_youngest c >>= next

-- The loop's condition and its body.
abbrev pub loop_body : (Core → Option Core) → Bool → Option RobEntry → ℕ → Core → Option Core
loop_body next false entry ptr c = some c
loop_body next true none ptr c = none
loop_body next true (some entry) ptr c = at_entry next entry ptr c

-- The loop, from the youngest entry. `none` is a fault, or the end of the fuel, which `roll_back` gives.
unfoldable pub roll_back_from : ℕ → ℕ → Core → Option Core
unfolding release_resource drop_youngest finish
roll_back_from zero rounds c = none
roll_back_from (suc fuel) rounds c =
    let next = roll_back_from fuel (rounds - 1) in
    loop_body next (goes_on rounds (u16 (LoopQueue.get_lastest c.rcu.rob)) c.rcu)
      (LoopQueue.at c.rcu.rob (u16 (LoopQueue.get_lastest c.rcu.rob)))
      (u16 (LoopQueue.get_lastest c.rcu.rob)) c

-- Each round takes an entry away, so that the entries and one round more are enough fuel.
unfoldable pub roll_back : Core → Option Core
unfolding roll_back_from
roll_back c = roll_back_from (suc c.rcu.rob.usage) c.rcu.alloc_width c

-- The second test of `Evaulate`.
abbrev pub end_flush : RobState → RobState
end_flush rob_flush_backend = rob_idle
end_flush rob_idle = rob_idle
end_flush rob_undo = rob_undo
end_flush rob_redo = rob_redo
end_flush rob_wait_for_resume = rob_wait_for_resume

unfoldable pub evaulate : Core → Option Core
unfolding roll_back
evaulate c = do
  c' ← (if is_undo c.rcu.rob_state then roll_back c else some c)
  some (with_rcu c' (record c'.rcu { rob_state = end_flush c'.rcu.rob_state }))
