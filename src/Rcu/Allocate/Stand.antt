-- ===== src/Rcu/Allocate/Stand.antt =====
-- What an entry of the reorder buffer says of its instruction, and that `CreateRobEntry` of
-- src/Processor/Component/Rcu.cc makes such an entry.
use riscv_cmodel_h.Base.{
  ℕ, zero, suc, ◌%◌, ◌^◌, ◌≡◌, ◌⊎◌, ◌↔◌, refl, true, false, Option, none, some, List, [], ◌∷◌,
  arith,
}
use riscv_cmodel_h.Insn.{DynInsn, InsnPkg, fu_eq, alu, csr}
use riscv_cmodel_h.Rcu.{RobEntry}
use riscv_cmodel_h.Rcu.Allocate.Defs.{entry_of}

-- Nothing is left to execute: an exception, an ALU operation on register 0, a FENCE or an MRET.
abbrev pub IsOver : DynInsn → Type 0
IsOver insn =
    (insn.excp.valid ≡ true)
    ⊎ ((fu_eq insn.fu alu ≡ true) × (insn.isa_rd ≡ 0))
    ⊎ ((fu_eq insn.fu csr ≡ true) × ((insn.sub_op ≡ 9) ⊎ (insn.sub_op ≡ 7)))

-- The entry of an instruction: it is valid, done and stable from the start exactly if nothing is left to
-- execute, marked if there is an exception, and has what commit and roll-back read of the instruction.
pub record StandsFor (insn : DynInsn) (e : RobEntry) : Type 0 where
  pub is_valid : e.valid ≡ true
  pub over : (e.done ≡ true) ↔ IsOver insn
  pub stable : e.is_stable ≡ e.done
  pub predicted : e.is_mis_pred ≡ false
  pub marked : e.is_excp ≡ insn.excp.valid
  pub same_rvc : e.is_rvc ≡ insn.is_rvc_insn
  pub same_pc : e.pc ≡ insn.pc
  pub same_fu : e.fu ≡ insn.fu
  pub same_lsq_tag : e.lsq_tag ≡ insn.lsq_tag % 2 ^ 16
  pub same_rd_type : e.rd_type ≡ insn.rd_type
  pub same_isa_rd : e.isa_rd ≡ insn.isa_rd
  pub same_phy_rd : e.phy_rd ≡ insn.phy_rd
  pub same_l_phy_rd : e.l_phy_rd ≡ insn.l_phy_rd

entry_of_done : (insn : DynInsn) → ((entry_of insn).done ≡ true) ↔ IsOver insn
entry_of_done insn = (λ h. ground (arith, h), λ h. ground (arith, h))

pub entry_of-StandsFor : (insn : DynInsn) → StandsFor insn (entry_of insn)
entry_of-StandsFor insn = record {
  is_valid = refl;
  over = entry_of_done insn;
  stable = refl;
  predicted = refl;
  marked = refl;
  same_rvc = refl;
  same_pc = refl;
  same_fu = refl;
  same_lsq_tag = refl;
  same_rd_type = refl;
  same_isa_rd = refl;
  same_phy_rd = refl;
  same_l_phy_rd = refl;
}

-- Entries that stand for the first `k` instructions, in order.
abbrev pub StandFor : ℕ → InsnPkg → List (Option RobEntry) → Type 0
StandFor zero pkg [] = Unit
StandFor zero pkg (e ∷ es) = ⊥
StandFor (suc k) [] es = ⊥
StandFor (suc k) (none ∷ rest) es = ⊥
StandFor (suc k) (some insn ∷ rest) [] = ⊥
StandFor (suc k) (some insn ∷ rest) (none ∷ es) = ⊥
StandFor (suc k) (some insn ∷ rest) (some e ∷ es) = StandsFor insn e × StandFor k rest es
