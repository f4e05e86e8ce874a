-- ===== src/Isa/StaticInsn/Tests.antt =====
-- The immediates of src/RISCV/StaticInsn.hh at words of each format.
use riscv_cmodel_h.Base.{◌≡◌, refl, ◌-◌, ◌^◌}
use riscv_cmodel_h.Isa.StaticInsn.{iimm, simm, sbimm, uimm, ujimm}

-- addi x1, x2, -1; sw x1, -4(x2); beq x1, x2, -8; lui x1, 0x12345; jal x0, -16
addi : iimm 0xfff10093 ≡ 2 ^ 32 - 1
addi = refl

sw : simm 0xfe112e23 ≡ 2 ^ 32 - 4
unfolding simm
sw = refl

beq : sbimm 0xfe208ce3 ≡ 2 ^ 32 - 8
unfolding sbimm
beq = refl

lui : uimm 0x123450b7 ≡ 0x12345000
unfolding uimm
lui = refl

jal : ujimm 0xff1ff06f ≡ 2 ^ 32 - 16
unfolding ujimm
jal = refl
