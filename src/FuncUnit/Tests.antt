-- ===== src/FuncUnit/Tests.antt =====
-- The theorems about the units of src/Processor/Component/FuncUnit, at small operands.
use riscv_cmodel_h.Base.{◌≡◌, refl, true, false, arith}
use riscv_cmodel_h.Insn.{DynInsn, blank_insn}
use riscv_cmodel_h.FuncUnit.MulDiv.{div_result}
use riscv_cmodel_h.FuncUnit.Bru
use riscv_cmodel_h.FuncUnit.LoadAddr.{addr_gen}
use riscv_cmodel_h.FuncUnit.Branching.{Resolves, compute-Resolves}
use riscv_cmodel_h.FuncUnit.Dividing.{Divides, DividesWord, div_result-unsigned}
use riscv_cmodel_h.FuncUnit.Misaligned.{AddrGens, addr_gen-excp}

div_result-unsigned_example :
    Divides 64 100 7 (div_result 1 100 7 0) (div_result 3 100 7 0)
    × DividesWord 100 7 (div_result 5 100 7 0) (div_result 7 100 7 0)
div_result-unsigned_example = div_result-unsigned 100 7 0

-- blt of -1 and 5, by -8, as it was predicted.
abbrev blt : DynInsn
blt = record blank_insn {
  sub_op = 4;
  pc = 16;
  imm = 0xfffffff8;
  operand1 = 0xffffffffffffffff;
  operand2 = 5;
  pred = record { taken = true; target = 8 };
}

compute-Resolves_example : Resolves 4 0x1ff8 blt (Bru.compute false blt)
compute-Resolves_example =
    compute-Resolves false 4 0x1ff8 blt (omega arith) (omega arith) (omega arith) (omega arith) refl
      refl (omega arith) (omega arith)

blt_predicted : (Bru.compute false blt).bru_mis_pred ≡ false
unfolding Bru.compute
blt_predicted = refl

-- A word that is loaded from an odd address.
abbrev lw : DynInsn
lw = record blank_insn { sub_op = 2; operand1 = 9 }

addr_gen-excp_example : AddrGens lw (addr_gen lw)
addr_gen-excp_example = addr_gen-excp lw refl (omega arith)
