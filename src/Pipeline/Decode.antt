-- ===== src/Pipeline/Decode.antt =====
-- src/Processor/Pipeline/Decode.cc: the stage that decodes, with its queue. A package holds instructions
-- that are there, since the fetch stage makes each; the cells of the queue that hold none are never
-- read.
pub mod Fifo
mod Tests
use riscv_cmodel_h.Base.{
  ℕ, zero, suc, ◌+◌, Bool, true, false, not, ◌==◌, ◌&&◌, ◌||◌, leb, if◌then◌else◌, Option, none,
  some, ◌>>=◌, ◌>>◌, assert, List, [], ◌∷◌, min,
}
use riscv_cmodel_h.Insn.{DynInsn, state_decode, fu_eq, bru}
use riscv_cmodel_h.LoopQueue
use riscv_cmodel_h.LoopQueue.{LoopQueue}
use riscv_cmodel_h.Isa.Decoder.{decode_func}
use riscv_cmodel_h.Isa.Decoder.Outcome.{PrivLevel}

-- `ReleaseAction`: as many instructions leave as the next stage has taken.
unfoldable pub release_action : ℕ → LoopQueue DynInsn → Option (LoopQueue DynInsn)
release_action zero q = some q
release_action (suc taken) q = LoopQueue.pop q >>= λ r. release_action taken r.1

-- What the loop of `ReceiveReq` does to an instruction: unless it has an exception it is decoded, and
-- with speculation a branch does not hold the dispatch back.
unfoldable pub decode_insn : PrivLevel → Bool → DynInsn → DynInsn
decode_insn priv speculation insn =
    let received = record insn { state = state_decode } in
    if received.excp.valid
    then received
    else (let decoded = decode_func priv received in
        if speculation && fu_eq decoded.fu bru
        then record decoded { control_flow_insn = false }
        else decoded)

-- The loop of `ReceiveReq`: the count of the acknowledgement and the queue.
unfoldable pub receive_from :
    PrivLevel → Bool → List DynInsn → ℕ → LoopQueue DynInsn → Option (ℕ × LoopQueue DynInsn)
unfolding decode_insn
receive_from priv speculation [] taken q = some (taken, q)
receive_from priv speculation (insn ∷ rest) taken q =
    if not (LoopQueue.full q)
    then LoopQueue.push q (decode_insn priv speculation insn)
      >>= receive_from priv speculation rest (taken + 1)
    else some (taken, q)

-- `ReceiveReq` of a valid port: an acknowledgement, or a stall, which is `none`.
unfoldable pub receive_req :
    PrivLevel
    → Bool
    → Bool
    → ℕ
    → List DynInsn
    → LoopQueue DynInsn
    → Option (Option ℕ × LoopQueue DynInsn)
unfolding receive_from
receive_req priv speculation must_take_all count insns q = do
  assert (leb count (LoopQueue.get_size q))
  if not must_take_all || leb count (LoopQueue.get_avail_entry_count q)
      then (do r ← receive_from priv speculation insns 0 q; some (some r.0, r.1))
      else some (none, q)

-- The loop of `SendReq`, for the rounds that are left.
unfoldable pub send_from : ℕ → ℕ → LoopQueue DynInsn → Option (List DynInsn)
send_from zero ptr q = some []
send_from (suc left) ptr q = do
  insn ← LoopQueue.at q ptr
  rest ← send_from left (LoopQueue.get_next_ptr q ptr) q
  some (insn ∷ rest)

-- `SendReq`: the package that is set at the port, if one is.
unfoldable pub send_req : ℕ → Bool → LoopQueue DynInsn → Option (Option (List DynInsn))
unfolding send_from
send_req count stalled q =
    if not (LoopQueue.empty q) && not stalled
    then (send_from (min count q.usage) q.header q >>= λ insns. some (some insns))
    else some none
