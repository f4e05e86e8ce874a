-- ===== src/Rcu/Allocate/Guard.antt =====
-- Proofs about src/Processor/Component/Rcu.cc: what `TryAllocate` counts is what `Allocate` can take.
use riscv_cmodel_h.Base.{
  ℕ, zero, suc, ◌+◌, ◌≤◌, ◌<◌, ◌≡◌, refl, Bool, true, false, not, ◌&&◌, none, some, [], ◌∷◌, arith,
  length, ltb, ◌==◌, if◌then◌else◌, Bool-cases, inl, inr, get_elem?,
}
use riscv_cmodel_h.Insn.{DynInsn, InsnPkg, is_int}
use riscv_cmodel_h.LoopQueue
use riscv_cmodel_h.Registers.FreeList
use riscv_cmodel_h.Registers.FreeList.{FreeList}
use riscv_cmodel_h.Rcu.{Rcu}
use riscv_cmodel_h.Rcu.Allocate.Defs.{needs_reg, try_allocate_from}

-- How many of the first `k` cells hold an instruction, and how many of these want a register.
abbrev pub rob_demand : ℕ → InsnPkg → ℕ
rob_demand zero pkg = 0
rob_demand (suc k) [] = 0
rob_demand (suc k) (none ∷ rest) = rob_demand k rest
rob_demand (suc k) (some insn ∷ rest) = suc (rob_demand k rest)

abbrev pub reg_demand : Bool → ℕ → InsnPkg → ℕ
reg_demand b zero pkg = 0
reg_demand b (suc k) [] = 0
reg_demand b (suc k) (none ∷ rest) = reg_demand b k rest
reg_demand b (suc k) (some insn ∷ rest) =
    if b && (is_int insn.rd_type && not (insn.isa_rd == 0))
    then suc (reg_demand b k rest)
    else reg_demand b k rest

-- The count stays within the package and within both supplies, if those counted before do.
pub try_allocate_from-le :
    (r : Rcu) (robs regs : ℕ) (pkg : InsnPkg)
    → robs ≤ LoopQueue.get_avail_entry_count r.rob
    → regs ≤ FreeList.get_avail_entry_count r.int_freelist
    → (try_allocate_from r robs regs pkg ≤ length pkg)
      × (robs + rob_demand (try_allocate_from r robs regs pkg) pkg
          ≤ LoopQueue.get_avail_entry_count r.rob)
      × (regs + reg_demand r.rename_register (try_allocate_from r robs regs pkg) pkg
          ≤ FreeList.get_avail_entry_count r.int_freelist)
unfolding try_allocate_from
try_allocate_from-le r robs regs [] h k = omega arith
try_allocate_from-le r robs regs (none ∷ rest) h k =
    ground (arith, try_allocate_from-le r robs regs rest h k)
try_allocate_from-le r robs regs (some insn ∷ rest) h k = ground (
  arith,
  try_allocate_from-le r (robs + 1) (regs + 1) rest,
  try_allocate_from-le r (robs + 1) regs rest,
)

-- Where it stops short, the next instruction is one that a supply has run out for.
pub data RunsOut (r : Rcu) (robs regs k : ℕ) (pkg : InsnPkg) : Type 0 where
  no_entry :
      robs + rob_demand k pkg ≡ LoopQueue.get_avail_entry_count r.rob → RunsOut r robs regs k pkg
  no_register :
      (insn : DynInsn)
      → get_elem? pkg k ≡ some (some insn)
      → needs_reg r insn ≡ true
      → regs + reg_demand r.rename_register k pkg ≡ FreeList.get_avail_entry_count r.int_freelist
      → RunsOut r robs regs k pkg

RunsOut-none :
    {r : Rcu} {robs regs k : ℕ} {pkg : InsnPkg}
    → RunsOut r robs regs k pkg
    → RunsOut r robs regs (suc k) (none ∷ pkg)
RunsOut-none (no_entry e) = no_entry e
RunsOut-none (no_register insn at needs e) = no_register insn at needs e

RunsOut-reg :
    {r : Rcu} {robs regs k : ℕ} {pkg : InsnPkg} (insn : DynInsn)
    → needs_reg r insn ≡ true
    → RunsOut r (robs + 1) (regs + 1) k pkg
    → RunsOut r robs regs (suc k) (some insn ∷ pkg)
RunsOut-reg insn n (no_entry e) = no_entry (omega arith)
RunsOut-reg insn n (no_register other at needs e) = no_register other at needs (rw n (omega arith))

RunsOut-rob :
    {r : Rcu} {robs regs k : ℕ} {pkg : InsnPkg} (insn : DynInsn)
    → needs_reg r insn ≡ false
    → RunsOut r (robs + 1) regs k pkg
    → RunsOut r robs regs (suc k) (some insn ∷ pkg)
RunsOut-rob insn n (no_entry e) = no_entry (omega arith)
RunsOut-rob insn n (no_register other at needs e) = no_register other at needs (rw n e)

-- The four ways of one round.
pub data Round (r : Rcu) (robs regs : ℕ) (insn : DynInsn) (rest : InsnPkg) : ℕ → Type 0 where
  full : robs ≡ LoopQueue.get_avail_entry_count r.rob → Round r robs regs insn rest 0
  dry :
      needs_reg r insn ≡ true
      → regs ≡ FreeList.get_avail_entry_count r.int_freelist
      → Round r robs regs insn rest 0
  with_reg :
      needs_reg r insn ≡ true
      → robs + 1 ≤ LoopQueue.get_avail_entry_count r.rob
      → regs + 1 ≤ FreeList.get_avail_entry_count r.int_freelist
      → Round r robs regs insn rest (suc (try_allocate_from r (robs + 1) (regs + 1) rest))
  with_none :
      needs_reg r insn ≡ false
      → robs + 1 ≤ LoopQueue.get_avail_entry_count r.rob
      → Round r robs regs insn rest (suc (try_allocate_from r (robs + 1) regs rest))

round_of :
    (r : Rcu) (robs regs : ℕ) (insn : DynInsn) (rest : InsnPkg)
    → robs ≤ LoopQueue.get_avail_entry_count r.rob
    → regs ≤ FreeList.get_avail_entry_count r.int_freelist
    → Round r robs regs insn rest (try_allocate_from r robs regs (some insn ∷ rest))
unfolding try_allocate_from
round_of r robs regs insn rest h k =
    elim (Bool-cases (ltb robs (LoopQueue.get_avail_entry_count r.rob))) [
      | inr stop ↦ rw (stop, try_allocate_from) (full (ground arith))
      | inl room ↦ elim (Bool-cases (needs_reg r insn)) [
        | inr free ↦ rw (room, free, try_allocate_from) (with_none free (ground arith))
        | inl needs ↦ elim (Bool-cases (ltb regs (FreeList.get_avail_entry_count r.int_freelist))) [
          | inr out ↦ rw (room, needs, out, try_allocate_from) (dry needs (ground arith))
          | inl more ↦
              rw (room, needs, more, try_allocate_from)
                (with_reg needs (ground arith) (ground arith))
        ]
      ]
    ]

RunsOut-round :
    (r : Rcu) (robs regs : ℕ) (insn : DynInsn) (rest : InsnPkg)
    → ((a b : ℕ)
        → a ≤ LoopQueue.get_avail_entry_count r.rob
        → b ≤ FreeList.get_avail_entry_count r.int_freelist
        → try_allocate_from r a b rest < length rest
        → RunsOut r a b (try_allocate_from r a b rest) rest)
    → {n : ℕ} → Round r robs regs insn rest n
    → robs ≤ LoopQueue.get_avail_entry_count r.rob
    → regs ≤ FreeList.get_avail_entry_count r.int_freelist
    → n < suc (length rest)
    → RunsOut r robs regs n (some insn ∷ rest)
RunsOut-round r robs regs insn rest ih (full e) h k lt = no_entry (omega arith)
RunsOut-round r robs regs insn rest ih (dry n e) h k lt = no_register insn refl n (omega arith)
RunsOut-round r robs regs insn rest ih (with_reg n a b) h k lt =
    RunsOut-reg insn n (ih (robs + 1) (regs + 1) a b (omega arith))
RunsOut-round r robs regs insn rest ih (with_none n a) h k lt =
    RunsOut-rob insn n (ih (robs + 1) regs a k (omega arith))

-- If the count ends short of the package, the entries have run out, or the next instruction wants a
-- register and these have.
pub try_allocate_from-RunsOut :
    (r : Rcu) (robs regs : ℕ) (pkg : InsnPkg)
    → robs ≤ LoopQueue.get_avail_entry_count r.rob
    → regs ≤ FreeList.get_avail_entry_count r.int_freelist
    → try_allocate_from r robs regs pkg < length pkg
    → RunsOut r robs regs (try_allocate_from r robs regs pkg) pkg
unfolding try_allocate_from
try_allocate_from-RunsOut r robs regs [] h k lt = absurd (omega arith)
try_allocate_from-RunsOut r robs regs (none ∷ rest) h k lt =
    RunsOut-none (try_allocate_from-RunsOut r robs regs rest h k (omega arith))
try_allocate_from-RunsOut r robs regs (some insn ∷ rest) h k lt =
    RunsOut-round r robs regs insn rest (λ a b. try_allocate_from-RunsOut r a b rest)
      (round_of r robs regs insn rest h k) h k lt
