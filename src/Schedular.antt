-- ===== src/Schedular.antt =====
-- The schedulers, which hold the instructions that wait for their operands. InAgeOrder is
-- src/Processor/Component/Schedular/ResvrStation/RS_InAgeOrder.hh with the loops of
-- src/Processor/Component/Schedular/BaseSchedular.hh.
pub mod InAgeOrder
use riscv_cmodel_h.Base.{ℕ, Bool, false, ◌||◌, ◌==◌, ◌≡◌, ◌+◌, Option, some}
use riscv_cmodel_h.Insn.{DynInsn}

-- What a scheduler asks of the function units and schedulers behind it, over their state: whether one
-- of them supports the instruction and is not busy, and their state once the first such has it
-- (`Allocate` and `Issue`, or `Allocate` and `Schedule`).
pub record Units {ℓ} (S : Type ℓ) : Type ℓ where
  pub accepts : S → DynInsn → Bool
  pub issue : S → DynInsn → S

-- What the dispatch stage calls of a scheduler, whatever its kind: `Busy`, `GetAvailibleEntryCount` and
-- `Allocate` of src/Processor/Component/Schedular/BaseSchedular.hh, and `m_AllocatedCount`.
pub record BaseSchedular (Q : Type 0) : Type 0 where
  pub busy : Q → Bool
  pub get_availible_entry_count : Q → ℕ
  pub allocated_count : Q → ℕ
  pub allocate : Q → Option (ℕ × Q)

-- What `Allocate` does where the scheduler is not busy: it has one entry and one call fewer.
pub record Admits {Q : Type 0} (s : BaseSchedular Q) (q : Q) : Type 0 where
  pub index : ℕ
  pub after : Q
  pub ran : s.allocate q ≡ some (index, after)
  pub fewer_entries : s.get_availible_entry_count after + 1 ≡ s.get_availible_entry_count q
  pub fewer_calls : s.allocated_count after + 1 ≡ s.allocated_count q

-- What a scheduler promises: it is busy exactly if it has no entry or no call left, and otherwise an
-- instruction can enter.
pub record IsSchedular {Q : Type 0} (s : BaseSchedular Q) : Type 0 where
  pub busy_lem :
      (q : Q) → s.busy q ≡ ((s.get_availible_entry_count q == 0) || (s.allocated_count q == 0))
  pub allocate_lem : (q : Q) → s.busy q ≡ false → Admits s q
