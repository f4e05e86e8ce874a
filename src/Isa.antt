-- ===== src/Isa.antt =====
-- The instruction set: what the processor reads in the words that it fetches. Rvc widens the
-- compressed instructions of src/RISCV/rvcExpender.hh, StaticInsn takes a word apart as
-- src/RISCV/StaticInsn.hh does, Decoder is `Decode_Func` of src/RISCV/Decoder.hh.
pub mod Rvc
pub mod StaticInsn
pub mod Decoder
