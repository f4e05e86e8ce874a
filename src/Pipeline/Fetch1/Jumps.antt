-- ===== src/Pipeline/Fetch1/Jumps.antt =====
-- Proofs about src/Processor/Pipeline/Fetch1.cc with src/RISCV/rvcExpender.hh: where the fetch stage
-- sends a jump, and where the instruction goes.
use riscv_cmodel_h.Base.{ℕ, ◌+◌, ◌*◌, ◌<◌, ◌≡◌, refl, true, ◌==◌, ==_iff}
use riscv_cmodel_h.Isa.Rvc.{crv_decompress_real}
use riscv_cmodel_h.Isa.Rvc.Words.{all_below, all_below-elim}
use riscv_cmodel_h.Isa.StaticInsn.{ujimm, sbimm, rvc_j_imm, rvc_b_imm}

j_table :
    all_below 2048 (λ k. rvc_j_imm (0xa001 + k * 4) == ujimm (crv_decompress_real (0xa001 + k * 4)))
    ≡ true
unfolding crv_decompress_real rvc_j_imm ujimm
j_table = refl

b_table :
    all_below 4096 (λ k. rvc_b_imm (0xc001 + k * 4) == sbimm (crv_decompress_real (0xc001 + k * 4)))
    ≡ true
unfolding crv_decompress_real rvc_b_imm sbimm
b_table = refl

-- The offset that the fetch stage reads off a c.j is the offset of the jump that the decoder widens it
-- to, for every c.j.
pub rvc_j_imm-ujimm :
    (k : ℕ) → k < 2048 → rvc_j_imm (0xa001 + k * 4) ≡ ujimm (crv_decompress_real (0xa001 + k * 4))
rvc_j_imm-ujimm k h = (==_iff _ _).0 (
    all_below-elim 2048
      (λ i. rvc_j_imm (0xa001 + i * 4) == ujimm (crv_decompress_real (0xa001 + i * 4))) k j_table h)

-- The offset that the fetch stage can read off a c.beqz or c.bnez is the offset of the branch that the
-- decoder widens it to, for each of them.
rvc_b_imm-sbimm :
    (k : ℕ) → k < 4096 → rvc_b_imm (0xc001 + k * 4) ≡ sbimm (crv_decompress_real (0xc001 + k * 4))
rvc_b_imm-sbimm k h = (==_iff _ _).0 (
    all_below-elim 4096
      (λ i. rvc_b_imm (0xc001 + i * 4) == sbimm (crv_decompress_real (0xc001 + i * 4))) k b_table h)
