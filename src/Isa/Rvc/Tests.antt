-- ===== src/Isa/Rvc/Tests.antt =====
-- The theorems about src/RISCV/rvcExpender.hh, at one load and one jump.
use riscv_cmodel_h.Base.{◌≡◌, ◌*◌, true, ◌||◌, ◌==◌, arith}
use riscv_cmodel_h.Isa.Rvc.{crv_decompress_real}
use riscv_cmodel_h.Isa.Rvc.Words.{
  is_expanded, Jumps, crv_decompress_real-is_expanded, crv_decompress_real-Jumps,
}

-- c.ld x8, 8(x9)
crv_decompress_real-is_expanded_example :
    ((crv_decompress_real 0x6480 == 0) || is_expanded (crv_decompress_real 0x6480)) ≡ true
crv_decompress_real-is_expanded_example = crv_decompress_real-is_expanded 0x6480 (omega arith)

-- c.j -2
crv_decompress_real-Jumps_example : Jumps (2047 * 2)
crv_decompress_real-Jumps_example = crv_decompress_real-Jumps 2047 (omega arith)
