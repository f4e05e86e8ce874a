-- ===== src/FuncUnit/Misaligned.antt =====
-- Proofs about `AddrGen` of src/Processor/Component/FuncUnit/Func_LDU.hh: loads that are not aligned.
use riscv_cmodel_h.Base.{
  bit_and, add64, refl, ap, sym, ◌∙◌, ℕ, zero, suc, ◌+◌, ◌-◌, ◌%◌, ◌^◌, ◌<◌, ◌≡◌, ◌≢◌, ◌⊎◌, false,
  ◌==◌, arith, Bool-cases, inl, inr, ==_iff,
}
use riscv_cmodel_h.Base.Mask.{bit_and-low}
use riscv_cmodel_h.Insn.{DynInsn}
use riscv_cmodel_h.FuncUnit.Ints.{sext32}
use riscv_cmodel_h.FuncUnit.LoadAddr.{addr_gen, low_bits, ld_addr_misaligned}

-- The bytes that a load reads: 1, 2, 4 and 8 for LB, LH, LW and LD, and again for the unsigned ones.
abbrev pub width : ℕ → ℕ
width op = 2 ^ (op % 4)

low_bits_lem : (op : ℕ) → op < 7 → low_bits op ≡ width op - 1
low_bits_lem zero h = refl
low_bits_lem (suc zero) h = refl
low_bits_lem (suc (suc zero)) h = refl
low_bits_lem (suc (suc (suc zero))) h = refl
low_bits_lem (suc (suc (suc (suc zero)))) h = refl
low_bits_lem (suc (suc (suc (suc (suc zero))))) h = refl
low_bits_lem (suc (suc (suc (suc (suc (suc zero)))))) h = refl
low_bits_lem (suc (suc (suc (suc (suc (suc (suc op))))))) h = absurd (omega (arith, h))

aligned_lem : (op addr : ℕ) → op < 7 → bit_and addr (low_bits op) ≡ addr % width op
aligned_lem op addr h = ap (bit_and addr) (low_bits_lem op h) ∙ bit_and-low (op % 4) addr

-- What a load has behind `AddrGen`: its address, and an exception that is the one before, or where the
-- address is no multiple of the width, one that is not valid, with the cause and the address.
pub record AddrGens (insn out : DynInsn) : Type 0 where
  pub address : out.agu_addr ≡ (insn.operand1 + sext32 insn.imm) % 2 ^ 64
  pub goes_on : out.excp.valid ≡ false
  pub noted :
      ((out.agu_addr % width insn.sub_op ≡ 0) × (out.excp ≡ insn.excp))
      ⊎ ((out.agu_addr % width insn.sub_op ≢ 0)
          × (out.excp.cause ≡ ld_addr_misaligned)
          × (out.excp.tval ≡ out.agu_addr))

-- A load that has no exception has none behind `AddrGen`, however its address is aligned: the address is
-- the sum of its operands, and where that is no multiple of the width, the cause and the address are
-- filled in, but the exception is not valid; else the exception stays as it was.
pub addr_gen-excp :
    (insn : DynInsn) → insn.excp.valid ≡ false → insn.sub_op < 7 → AddrGens insn (addr_gen insn)
unfolding addr_gen
addr_gen-excp insn none_yet op =
    let addr = add64 insn.operand1 (sext32 insn.imm) in
    let same = aligned_lem insn.sub_op addr op in
    elim (Bool-cases (bit_and addr (low_bits insn.sub_op) == 0)) [
      | inl fits ↦ rw fits (record {
        address = refl;
        goes_on = none_yet;
        noted = inl (sym same ∙ (==_iff _ 0).0 fits, refl);
      })
      | inr off ↦ rw off (record {
        address = refl;
        goes_on = refl;
        noted = inr (λ e. ground (arith, off, same ∙ e), refl, refl);
      })
    ]
