-- ===== src/Memory/Dram.antt =====
-- src/Memory/BaseDRAM.cc and BaseDRAM.hh: the memory and the two ranges beside it. The three arrays are
-- lists of bytes; a failed DASSERT and an index outside of an array are `none`.
pub mod Bytes
pub mod StoreLoad
mod Tests
use riscv_cmodel_h.Base.{
  ℕ, zero, suc, ◌+◌, ◌-◌, ◌*◌, ◌/◌, ◌%◌, ◌^◌, Bool, true, false, ◌==◌, ◌&&◌, ltb, leb,
  if◌then◌else◌, Option, none, some, ◌>>=◌, ◌>>◌, assert, List, [], ◌∷◌, length, get_elem?, set,
  replicate, bit_and, ◌>>>◌,
}

pub record Dram : Type 0 where
  pub base : ℕ
  pub length : ℕ
  pub ram : List ℕ
  pub io_base : ℕ
  pub io : List ℕ
  pub hole_end : ℕ
  pub hole : List ℕ

-- `BaseDRAM::BaseDRAM`
unfoldable pub construct : ℕ → ℕ → Dram
construct base length = record {
  base = base;
  length = length;
  ram = replicate length 0;
  io_base = 0;
  io = replicate base 0;
  hole_end = 0xFFFFFFFF;
  hole = replicate (0xFFFFFFFF - base - length) 0;
}

-- `checkRange`, `checkIORange` and `checkHoleRange`
abbrev pub check_range : ℕ → Dram → Bool
check_range address d = leb d.base address && leb address (d.base + d.length)

abbrev pub check_io_range : ℕ → Dram → Bool
check_io_range address d = leb d.io_base address && ltb address d.base

abbrev pub check_hole_range : ℕ → Dram → Bool
check_hole_range address d = leb address d.hole_end && ltb (d.base + d.length) address

-- `memcpy` out of an array: `n` bytes from `position` on.
unfoldable pub copy_out : ℕ → ℕ → List ℕ → Option (List ℕ)
copy_out zero position memory = some []
copy_out (suc n) position memory = do
  byte ← get_elem? memory position
  rest ← copy_out n (position + 1) memory
  some (byte ∷ rest)

-- One byte of the loops that write.
unfoldable pub write_one : ℕ → ℕ → ℕ → List ℕ → List ℕ → Option (List ℕ)
write_one i position mask bytes memory = if bit_and (mask >>> i) 1 == 0 then some memory else (do
  byte ← get_elem? bytes i
  assert (ltb (position + i) (length memory))
  some (set memory (position + i) byte))

-- `for(i = 0; i < len; i++) if((mask >> i) & 1) memory[position + i] = data[i]`, with the rounds left.
unfoldable pub write_masked : ℕ → ℕ → ℕ → ℕ → List ℕ → List ℕ → Option (List ℕ)
unfolding write_one
write_masked zero i position mask bytes memory = some memory
write_masked (suc left) i position mask bytes memory =
    write_one i position mask bytes memory >>= write_masked left (i + 1) position mask bytes

-- `std::copy` and `memcpy` into an array: every byte is written.
unfoldable pub copy_in : ℕ → ℕ → List ℕ → List ℕ → Option (List ℕ)
unfolding write_masked
copy_in n position bytes memory = write_masked n 0 position (2 ^ n - 1) bytes memory

-- `read_c` and the data that `read` points to
unfoldable pub read_c : ℕ → ℕ → Dram → Option (List ℕ)
unfolding copy_out
read_c address len d = do assert (check_range address d); copy_out len (address - d.base) d.ram

-- The number of bytes, the lowest first.
abbrev pub little_endian : List ℕ → ℕ
little_endian [] = 0
little_endian (x ∷ xs) = x + 256 * little_endian xs

-- `readDouble`
unfoldable pub read_double : ℕ → Dram → Option ℕ
unfolding read_c
read_double address d = do read ← read_c address 8 d; some (little_endian read)

-- `readByte`
unfoldable pub read_byte : ℕ → Dram → Option ℕ
read_byte address d = do assert (check_range address d); get_elem? d.ram (address - d.base)

-- `write` with a mask
unfoldable pub write_mask : ℕ → List ℕ → ℕ → ℕ → Dram → Option Dram
unfolding write_masked
write_mask address bytes len mask d = do
  assert (check_range address d)
  ram ← write_masked len 0 (address - d.base) mask bytes d.ram
  some (record d { ram = ram })

-- `write` without one
unfoldable pub write : ℕ → List ℕ → ℕ → Dram → Option Dram
unfolding copy_in
write address bytes len d = do
  assert (check_range address d)
  ram ← copy_in len (address - d.base) bytes d.ram
  some (record d { ram = ram })

-- The bytes of a number, the lowest first.
abbrev pub bytes_of : ℕ → ℕ → List ℕ
bytes_of zero x = []
bytes_of (suc n) x = x % 256 ∷ bytes_of n (x / 256)

-- `writeDouble`
unfoldable pub write_double : ℕ → ℕ → Dram → Option Dram
unfolding write
write_double address value d = write address (bytes_of 8 value) 8 d

-- `readIO`, `writeIO`, `readHole` and `writeHole`
unfoldable pub read_io : ℕ → ℕ → Dram → Option (List ℕ)
unfolding copy_out
read_io address len d = do
  assert (check_io_range address d)
  copy_out len (address - d.io_base) d.io

unfoldable pub write_io : ℕ → List ℕ → ℕ → ℕ → Dram → Option Dram
unfolding write_masked
write_io address bytes len mask d = do
  assert (check_io_range address d)
  io ← write_masked len 0 (address - d.io_base) mask bytes d.io
  some (record d { io = io })

unfoldable pub read_hole : ℕ → ℕ → Dram → Option (List ℕ)
unfolding copy_out
read_hole address len d = do
  assert (check_hole_range address d)
  copy_out len (address - (d.base + d.length)) d.hole

unfoldable pub write_hole : ℕ → List ℕ → ℕ → ℕ → Dram → Option Dram
unfolding write_masked
write_hole address bytes len mask d = do
  assert (check_hole_range address d)
  hole ← write_masked len 0 (address - (d.base + d.length)) mask bytes d.hole
  some (record d { hole = hole })
