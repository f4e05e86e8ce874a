-- ===== src/Rcu/Allocate/Total.antt =====
-- Proofs about src/Processor/Component/Rcu.cc: `Allocate` with the count of `TryAllocate`, as a whole.
use riscv_cmodel_h.Base.{
  ℕ, zero, suc, ◌+◌, ◌≤◌, ◌≡◌, refl, ap, ◌∙◌, true, Option, none, some, List, [], ◌∷◌, ◌++◌, arith,
  length, All, Bool-cases, inl, inr, take, drop,
}
use mathlib.Core.Path.{subst}
use riscv_cmodel_h.Insn.{DynInsn, InsnPkg}
use riscv_cmodel_h.Registers.FreeList
use riscv_cmodel_h.LoopQueue.Refine.{contents}
use riscv_cmodel_h.LoopQueue.Valid.{IsValid, avail_lem}
use riscv_cmodel_h.Registers.RenameTable.{RenameTable}
use riscv_cmodel_h.Rcu.{Rcu, RobEntry, Core, with_rcu}
use riscv_cmodel_h.Rcu.Rename.Defs.{writes_reg, rename, resovle_dependancy}
use riscv_cmodel_h.Rcu.Allocate.Defs.{
  try_allocate, try_allocate_from, allocate, allocate_regs, create_rob_entries,
}
use riscv_cmodel_h.Rcu.Allocate.Guard.{reg_demand, rob_demand, try_allocate_from-le}
use riscv_cmodel_h.Rcu.Allocate.Take.{HasRegs}
use riscv_cmodel_h.Rcu.Allocate.Renaming.{assign, table_behind, allocate_regs-TakesRegs}
use riscv_cmodel_h.Rcu.Allocate.Entries.{Present, tag_from, create_rob_entries-CreatesAll}
use riscv_cmodel_h.Rcu.Allocate.Stand.{StandFor}
use riscv_cmodel_h.Rcu.Rename.Sequential.{
  IsTyped, TypedCell, table_after, rename_sequential, rename-read_all, resovle_dependancy-read_all,
}

-- What `Allocate` of `k` instructions does: they are renamed one after the other, each one that
-- writes a register has the next one of the free list, and behind the entries that were there stand
-- those of the instructions as they are returned, in order.
pub record Allocates (k : ℕ) (pkg : InsnPkg) (c : Core) (o : Option (InsnPkg × Core)) : Type 0 where
  pub after : Core
  pub returns :
      o
      ≡ some (
        tag_from
            (length c.rcu.rob.data_vec)
            c.rcu.rob.tail
            k
            (rename_sequential c.rcu.int_rename_table (assign k c.rcu.int_freelist.freelist pkg)),
        after,
      )
  pub table :
      after.rcu.int_rename_table
      ≡ table_behind c.rcu.int_rename_table (take k (assign k c.rcu.int_freelist.freelist pkg))
  pub entries : List (Option RobEntry)
  pub entered : contents after.rcu.rob ≡ contents c.rcu.rob ++ entries
  pub stand :
      StandFor k
        (tag_from
          (length c.rcu.rob.data_vec)
          c.rcu.rob.tail
          k
          (rename_sequential c.rcu.int_rename_table (assign k c.rcu.int_freelist.freelist pkg)))
        entries
  pub used : after.rcu.rob.usage ≡ c.rcu.rob.usage + k
  pub valid : IsValid after.rcu.rob
  pub free :
      length after.rcu.int_freelist.freelist + reg_demand true k pkg
      ≡ length c.rcu.int_freelist.freelist

with_reg-IsTyped : (insn : DynInsn) (p : ℕ) → IsTyped insn → IsTyped (record insn { phy_rd = p })
with_reg-IsTyped insn p v = record {
  rs1 = v.rs1;
  rs2 = v.rs2;
  rd = v.rd;
  rs1_in = v.rs1_in;
  rs2_in = v.rs2_in;
  rd_in = v.rd_in;
}

assign-TypedCell :
    (k : ℕ) (free : List ℕ) (pkg : InsnPkg) → All TypedCell pkg → All TypedCell (assign k free pkg)
assign-TypedCell zero free pkg v = v
assign-TypedCell (suc k) free [] v = v
assign-TypedCell (suc k) free (none ∷ rest) v = elim v.0 [ ]
assign-TypedCell (suc k) free (some insn ∷ rest) v = elim (Bool-cases (writes_reg insn)) [
  | inl w ↦ rw w (with_reg-IsTyped insn _ v.0, assign-TypedCell k (drop 1 free) rest v.1)
  | inr w ↦ rw w (v.0, assign-TypedCell k free rest v.1)
]

length-assign : (k : ℕ) (free : List ℕ) (pkg : InsnPkg) → length (assign k free pkg) ≡ length pkg
length-assign zero free pkg = refl
length-assign (suc k) free [] = refl
length-assign (suc k) free (none ∷ rest) = ap suc (length-assign k free rest)
length-assign (suc k) free (some insn ∷ rest) = elim (Bool-cases (writes_reg insn)) [
  | inl w ↦ rw w (ap suc (length-assign k (drop 1 free) rest))
  | inr w ↦ rw w (ap suc (length-assign k free rest))
]

length-rename_sequential :
    (t : RenameTable) (pkg : InsnPkg) → length (rename_sequential t pkg) ≡ length pkg
unfolding rename_sequential
length-rename_sequential t [] = refl
length-rename_sequential t (none ∷ rest) = ap suc (length-rename_sequential t rest)
length-rename_sequential t (some insn ∷ rest) =
    ap suc (length-rename_sequential (table_after t insn) rest)

rename_sequential-Present :
    (t : RenameTable) (pkg : InsnPkg) → All TypedCell pkg → All Present (rename_sequential t pkg)
unfolding rename_sequential
rename_sequential-Present t [] v = tt
rename_sequential-Present t (none ∷ rest) v = elim v.0 [ ]
rename_sequential-Present t (some insn ∷ rest) v =
    (tt, rename_sequential-Present (table_after t insn) rest v.1)

rob_demand-All : (k : ℕ) (pkg : InsnPkg) → All TypedCell pkg → k ≤ length pkg → rob_demand k pkg ≡ k
rob_demand-All zero pkg v le = refl
rob_demand-All (suc k) [] v le = absurd (omega arith)
rob_demand-All (suc k) (none ∷ rest) v le = elim v.0 [ ]
rob_demand-All (suc k) (some insn ∷ rest) v le = ap suc (rob_demand-All k rest v.1 (omega arith))

allocate_lem :
    (pkg : InsnPkg) (k : ℕ) (c : Core) {read assigned sent : InsnPkg} {r : Rcu} {after : Core}
    → rename c.rcu.rename_register c.rcu.int_rename_table pkg ≡ some read
    → allocate_regs k read c.rcu ≡ some (assigned, r)
    → create_rob_entries k (resovle_dependancy assigned) (with_rcu c r) ≡ some (sent, after)
    → allocate pkg k c ≡ some (sent, after)
unfolding allocate
allocate_lem pkg k c e f g = rw (e, f, g) refl

-- `Allocate` of as many instructions as the two supplies hold.
pub allocate-enough :
    (k : ℕ) (pkg : InsnPkg) (c : Core)
    → c.rcu.rename_register ≡ true
    → All TypedCell pkg
    → HasRegs c.rcu
    → IsValid c.rcu.rob
    → k ≤ length pkg
    → reg_demand true k pkg ≤ length c.rcu.int_freelist.freelist
    → c.rcu.rob.usage + k ≤ length c.rcu.rob.data_vec
    → Allocates k pkg c (allocate pkg k c)
allocate-enough k pkg c mode v regs rob le few room =
    let t = c.rcu.int_rename_table in
    let free = c.rcu.int_freelist.freelist in
    let h = allocate_regs-TakesRegs k t pkg c.rcu mode v regs le few in
    let vs = assign-TypedCell k free pkg v in
    let renamed = rename_sequential t (assign k free pkg) in
    let made =
      create_rob_entries-CreatesAll k renamed (with_rcu c h.after)
        (rename_sequential-Present t _ vs) (rw h.same_rob rob)
        (omega (arith, length-rename_sequential t (assign k free pkg), length-assign k free pkg))
        (rw h.same_rob room) in
    let resolved =
      ap (λ xs. create_rob_entries k xs (with_rcu c h.after))
        (resovle_dependancy-read_all t (assign k free pkg) regs.table vs)
      ∙ made.returns in
    record {
      after = made.after;
      returns =
          allocate_lem pkg k c (rw mode (rename-read_all t pkg regs.table v)) h.returns resolved
          ∙ rw h.same_rob refl;
      table = made.adds.table ∙ h.table;
      entries = made.entries;
      entered = made.entered ∙ rw h.same_rob refl;
      stand =
          subst (λ q. StandFor k (tag_from (length q.data_vec) q.tail k renamed) made.entries)
            h.same_rob made.stand;
      used = made.adds.used ∙ rw h.same_rob refl;
      valid = made.adds.valid;
      free = rw made.adds.free h.free;
    }

-- With renaming on, the registers well formed and the buffer well formed, a package of typed
-- instructions is allocated without a fault up to the count that `TryAllocate` gives: the entries and
-- registers that it counted are used up, the operands and tags are those of one instruction after the
-- other, and behind the entries that were in the buffer stand those of the allocated instructions, in
-- order, each with what its instruction says and done exactly if that has nothing to execute.
pub allocate-Allocates :
    (pkg : InsnPkg) (c : Core)
    → c.rcu.rename_register ≡ true
    → All TypedCell pkg
    → HasRegs c.rcu
    → IsValid c.rcu.rob
    → Allocates (try_allocate c.rcu pkg) pkg c (allocate pkg (try_allocate c.rcu pkg) c)
unfolding try_allocate FreeList.get_avail_entry_count
allocate-Allocates pkg c mode v regs rob =
    let k = try_allocate_from c.rcu 0 0 pkg in
    let fit = try_allocate_from-le c.rcu 0 0 pkg (omega arith) (omega arith) in
    allocate-enough k pkg c mode v regs rob fit.0 (ground (arith, fit.2, regs.few, mode))
      (omega (arith, fit.1, avail_lem rob, rob_demand-All k pkg v fit.0))
