-- ===== src/FuncUnit/LoadResponse.antt =====
-- `ReceiveLoadResponse` of src/Processor/Component/FuncUnit/Func_LDU.hh. The instruction that the entry
-- of the load queue points to is an argument; a write-back port is the instruction that it carries, if
-- it is valid.
use riscv_cmodel_h.Base.{
  ℕ, zero, suc, ◌+◌, ◌-◌, ◌*◌, ◌^◌, ltb, Bool, true, false, if◌then◌else◌, Option, none, some,
  ◌>>=◌, List, [], ◌∷◌, get_elem?, bit_and,
}
use riscv_cmodel_h.Insn.{DynInsn, Exception, state_write_back}
use riscv_cmodel_h.LoopQueue
use riscv_cmodel_h.Lsq.{Lsq, LdqEntry, load_executed}
use riscv_cmodel_h.Lsq.Issue.{MemOp, op_fetch, op_load, op_store, op_amo, op_flush_all, op_flush}

-- The number that `n` bytes from `offset` on stand for.
unfoldable pub read_bytes : ℕ → ℕ → List ℕ → Option ℕ
read_bytes zero offset line = some 0
read_bytes (suc n) offset line = do
  byte ← get_elem? line offset
  rest ← read_bytes n (offset + 1) line
  some (byte + 256 * rest)

-- A number of `bits` bits with its sign spread over 64.
abbrev pub sign_extend : ℕ → ℕ → ℕ
sign_extend bits x = if ltb x (2 ^ (bits - 1)) then x else x + 2 ^ 64 - 2 ^ bits

-- The switch on the operation: LB, LH, LW, LD, LBU, LHU, LWU; another number leaves the result.
unfoldable pub load_result : ℕ → ℕ → List ℕ → ℕ → Option ℕ
load_result zero offset line old = read_bytes 1 offset line >>= λ x. some (sign_extend 8 x)
load_result (suc zero) offset line old = read_bytes 2 offset line >>= λ x. some (sign_extend 16 x)
load_result (suc (suc zero)) offset line old =
    read_bytes 4 offset line >>= λ x. some (sign_extend 32 x)
load_result (suc (suc (suc zero))) offset line old = read_bytes 8 offset line
load_result (suc (suc (suc (suc zero)))) offset line old = read_bytes 1 offset line
load_result (suc (suc (suc (suc (suc zero))))) offset line old = read_bytes 2 offset line
load_result (suc (suc (suc (suc (suc (suc zero)))))) offset line old = read_bytes 4 offset line
load_result (suc (suc (suc (suc (suc (suc (suc op))))))) offset line old = some old

-- The first write-back port that is free takes the instruction; with none free the assertion fails.
unfoldable pub to_port : DynInsn → List (Option DynInsn) → Option (List (Option DynInsn))
to_port insn [] = none
to_port insn (none ∷ ports) = some (some insn ∷ ports)
to_port insn (some other ∷ ports) = to_port insn ports >>= λ rest. some (some other ∷ rest)

-- The result of the instruction, where the response has no exception.
unfoldable pub with_result : Exception → List ℕ → ℕ → LdqEntry → DynInsn → Option DynInsn
unfolding load_result read_bytes
with_result excp line align_byte e insn =
    if excp.valid then some (record insn { excp = excp }) else (do
      x ← load_result e.op (bit_and e.address (align_byte - 1)) line insn.rd_result
      some (record insn { excp = excp; rd_result = x }))

-- The test at the head: the response is that of a load.
unfoldable pub is_load : MemOp → Bool
is_load op_fetch = false
is_load op_load = true
is_load op_store = false
is_load op_amo = false
is_load op_flush_all = false
is_load op_flush = false

-- A load's response: the entry is executed, and unless it was killed the instruction is written back.
-- Another response changes nothing.
unfoldable pub receive_load_response :
    MemOp
    → ℕ
    → Exception
    → List ℕ
    → DynInsn
    → List (Option DynInsn)
    → Lsq
    → Option (DynInsn × List (Option DynInsn) × Lsq)
unfolding is_load to_port with_result
receive_load_response opcode tag excp line insn ports l =
    if is_load opcode
    then (do
      e ← LoopQueue.at l.load_queue tag
      q ← LoopQueue.put l.load_queue tag (record e { state = load_executed })
      if e.killed then some (insn, ports, record l { load_queue = q }) else (do
        loaded ← with_result excp line l.d_cache_align_byte e insn
        let done = record loaded { state = state_write_back }
        ports' ← to_port done ports
        some (done, ports', record l { load_queue = q })))
    else some (insn, ports, l)
