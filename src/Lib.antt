-- ===== src/Lib.antt =====
-- A verification library for riscv-cmodel-H, a cycle-level model in C++ of an out-of-order RISC-V
-- processor.
--
-- The program. Each cycle the front end fetches words, widens the 16-bit ones and decodes them to
-- dynamic instructions, which go in packages to the dispatch stage. There the reorder control unit
-- (src/Processor/Component/Rcu.cc) renames them and gives them physical registers and entries of the
-- reorder buffer, and the load and store queues (src/Processor/Component/Lsq.cc) give places to loads
-- and stores. Units execute them out of order and write back; a misprediction or an exception makes the
-- control unit roll its youngest entries back; the commit stage takes finished entries off in order.
-- Both kinds of queue are circular (src/Processor/Component/LoopQueue.hh). Architectural registers and
-- CSRs are in src/RISCV/ExecContext.cc.
--
-- The files.
--   Base: lists indexed by native numbers, tests, words that wrap, chains of fallible steps.
--   LoopQueue: src/Processor/Component/LoopQueue.hh, `LoopQueue<T>` with Push, Pop, Allocate, RollBack
--     and isOlder. Valid has its invariant, Refine the sequence that it holds, Age the order of tags,
--     Scan the searches that the queues make.
--   Insn: src/Processor/DynInsn.hh, the record of an instruction in flight.
--   Registers: FreeList, BusyList, RenameTable and RegisterFile of src/Processor/Component.
--   ExecContext: src/RISCV/ExecContext.cc.
--   Lsq: src/Processor/Component/Lsq.cc and Lsq.hh. Issue is TryIssueLoad and TryIssueStore, Retire is
--     Evaulate; Order, Dependancy and Drain are proofs.
--   Rcu: src/Processor/Component/Rcu.cc and Rcu.hh, in Rename, Allocate, RollBack, WriteBack and Commit,
--     each with its operations in Defs and its proofs beside it. `Core` is the unit with what it calls
--     through the processor: the queues, the execution context, and the list of its flush calls.
--   Isa: Rvc is src/RISCV/rvcExpender.hh, the widening of compressed instructions. StaticInsn is
--     src/RISCV/StaticInsn.hh, the fields of a word. Decoder is `Decode_Func` of src/RISCV/Decoder.hh, a
--     definition for each case of its switch in System, Memory and Arith.
--   Pipeline: the stages of src/Processor/Pipeline. Fetch1 is `Predict`, `BranchRedirect` and
--     `GenNextFetchAddress`, Decode the queue of Decode.cc, Dispatch is `TryDispatch` and `DispatchInsn`.
--   Timing: src/Timing/TimeBuffer.hh, the buffer between two stages.
--   Schedular: InAgeOrder is Schedular/ResvrStation/RS_InAgeOrder.hh of src/Processor/Component, with
--     what it inherits from BaseSchedular.hh. `BaseSchedular` is what Dispatch calls of a scheduler,
--     with the laws that it needs, which Interface proves of the station.
--   Tlb: TLB.cc and TLB.hh of src/Processor/Component.
--   Memory: Dram is src/Memory/BaseDRAM.cc.
--   FuncUnit: Func_ALU, Func_MUL, Func_DIV, Func_BRU and Func_CSR of src/Processor/Component/FuncUnit,
--     and `AddrGen` and `ReceiveLoadResponse` of Func_LDU.
--   The modules named Tests apply the theorems to small inputs.
--
-- How it is modelled. A method that changes its object takes the state and returns the new one. The
-- result `none` is a failed DASSERT (which throws in a build with TRACE_ON, the default), an index past
-- a vector, or a null pointer that is dereferenced. Numbers are natural; a word of w bits wraps by
-- `% 2 ^ w` where the source's type does. Pointers to a shared instruction become the instruction, which
-- an operation that writes to it returns. Function, type and field names are those of the source.
--
-- Loops are recursion on the list or the count that they run over. Two while loops of `Evaulate` in
-- Lsq.cc and the loop of `RollBack` in Rcu.cc run on fuel, one more than the entries in the queue; each
-- round takes an entry away, so that it is enough, and the theorems on them include that.
--
-- Not modelled, and left for later: the latch in front of the schedulers and the stations other than
-- the one by age, the ports, the caches, the rest of the stages with their stall and flush protocol,
-- and the CLINT. Not modelled at all: tracing, program loading and the command line, which are input
-- and output; the fields `insnPtr`, which only traces read; the snapshots of the control unit, which
-- nothing uses. The list of CSR addresses, from generated code, is a parameter.
pub mod Base
pub mod LoopQueue
pub mod Insn
pub mod Registers
pub mod ExecContext
pub mod Lsq
pub mod Rcu
pub mod Timing
pub mod Schedular
pub mod Tlb
pub mod Memory
pub mod Isa
pub mod Pipeline
pub mod FuncUnit
