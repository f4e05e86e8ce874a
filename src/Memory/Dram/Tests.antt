-- ===== src/Memory/Dram/Tests.antt =====
-- The theorem about a store and its load, and the bounds of src/Memory/BaseDRAM.cc.
use riscv_cmodel_h.Base.{◌≡◌, refl, arith, none, some, [], replicate, true, ◌>>=◌}
use riscv_cmodel_h.Memory.Dram.{Dram, check_range, read_byte, read_double, write_double}
use riscv_cmodel_h.Memory.Dram.StoreLoad.{HasLine, ReadsBack, write_mask-ReadsBack}

-- 16 bytes at 0x80000000.
unfoldable small : Dram
small = record {
  base = 0x80000000;
  length = 16;
  ram = replicate 16 0;
  io_base = 0;
  io = [];
  hole_end = 0xFFFFFFFF;
  hole = [];
}

second_line : HasLine 0x80000008 small
unfolding small
second_line = record { from_base = omega arith; to_end = omega arith; ram_length = refl }

-- A halfword at offset 6 of the second line.
write_mask-ReadsBack_example : ReadsBack 1 0x80000008 6 0xABCDEF 0 (replicate 8 0) small
write_mask-ReadsBack_example =
    write_mask-ReadsBack 1 0x80000008 6 0xABCDEF 0 (replicate 8 0) small (omega arith) (omega arith)
      refl second_line

double_word :
    (write_double 0x80000008 0x1122334455667788 small >>= read_double 0x80000008)
    ≡ some 0x1122334455667788
unfolding write_double read_double small
double_word = refl

-- The address behind the last byte is in range, and there is no byte there.
in_range : check_range 0x80000010 small ≡ true
unfolding small
in_range = refl

no_byte : read_byte 0x80000010 small ≡ none
unfolding read_byte small
no_byte = refl
