-- ===== src/ExecContext.antt =====
-- src/RISCV/ExecContext.cc: the architectural integer registers and the CSRs of one hart. The CSR
-- numbers are those of src/RISCV/encoding.out.h.
use riscv_cmodel_h.Base.{
  ℕ, Option, none, some, List, [], ◌∷◌, ◌==◌, ltb, if◌then◌else◌, length, get_elem?, set, add64,
}

-- m_IntIsaRegFile and m_CsrRegFile. A key that the map does not hold reads as 0, which is what its
-- `operator[]` puts there; the names of the CSRs are left out.
pub record ExecContext : Type 0 where
  pub int_isa_reg_file : List ℕ
  pub csr_reg_file : ℕ → ℕ

abbrev pub csr_mhartid : ℕ
csr_mhartid = 0xf14

abbrev pub csr_mepc : ℕ
csr_mepc = 0x341

abbrev pub csr_mcause : ℕ
csr_mcause = 0x342

abbrev pub csr_mtval : ℕ
csr_mtval = 0x343

abbrev pub csr_mtvec : ℕ
csr_mtvec = 0x305

abbrev pub csr_mcycle : ℕ
csr_mcycle = 0xb00

abbrev pub csr_minstret : ℕ
csr_minstret = 0xb02

unfoldable pub write_csr : ExecContext → ℕ → ℕ → ExecContext
write_csr c addr value = record c {
  csr_reg_file = λ a. if a == addr then value else c.csr_reg_file a;
}

unfoldable pub read_csr : ExecContext → ℕ → ℕ
read_csr c addr = c.csr_reg_file addr

unfoldable pub cycle_inc : ExecContext → ExecContext
unfolding write_csr read_csr
cycle_inc c = write_csr c csr_mcycle (add64 (read_csr c csr_mcycle) 1)

unfoldable pub instret_inc : ExecContext → ExecContext
unfolding write_csr read_csr
instret_inc c = write_csr c csr_minstret (add64 (read_csr c csr_minstret) 1)

-- `declared` holds the addresses that encoding.out.h declares.
unfoldable pub clear_csrs : List ℕ → ExecContext → ExecContext
unfolding write_csr
clear_csrs [] c = c
clear_csrs (a ∷ rest) c = clear_csrs rest (write_csr c a 0)

unfoldable pub reset : List ℕ → ℕ → ℕ → ExecContext → ExecContext
unfolding write_csr clear_csrs
reset declared tid boot_address c =
    write_csr (write_csr (clear_csrs declared c) csr_mhartid tid) csr_mepc boot_address

-- `none` is an index past the register file.
unfoldable pub write_int_reg : ExecContext → ℕ → ℕ → Option ExecContext
write_int_reg c index value =
    if ltb index (length c.int_isa_reg_file)
    then some (record c { int_isa_reg_file = set c.int_isa_reg_file index value })
    else none

unfoldable pub read_int_reg : ExecContext → ℕ → Option ℕ
read_int_reg c index = get_elem? c.int_isa_reg_file index
