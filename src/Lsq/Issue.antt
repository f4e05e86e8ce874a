-- ===== src/Lsq/Issue.antt =====
-- `TryIssueLoad` and `TryIssueStore` of src/Processor/Component/Lsq.cc: which memory request the
-- queues send next. `none` is an index past a queue or a mask that overflows `int`.
use riscv_cmodel_h.Base.{
  ℕ, zero, suc, ◌+◌, ◌-◌, ◌/◌, ◌^◌, Bool, true, false, not, ◌&&◌, Option, none, some, List, u16,
  sub64, bit_and, ltb, if◌then◌else◌, set, ◌>>=◌, ◌<<◌, ◌>>>◌,
}
use riscv_cmodel_h.LoopQueue
use riscv_cmodel_h.LoopQueue.{LoopQueue}
use riscv_cmodel_h.LoopQueue.Scan
use riscv_cmodel_h.Lsq.{
  Lsq, LdqEntry, StqEntry, LoadState, StoreState, load_wait_send, load_inflight, load_executed,
  store_wait_send, store_inflight, store_executed,
}

-- `MemOp_t` and `MemReq_t` of src/Processor/Pipeline/Pipe_data.hh; `buffer` is the array behind `Data`.
pub data MemOp : Type 0 where
  op_fetch op_load op_store op_amo op_flush_all op_flush : MemOp

pub record MemReq : Type 0 where
  pub hart_id : ℕ
  pub trans_id : ℕ
  pub address : ℕ
  pub opcode : MemOp
  pub length : ℕ
  pub buffer : List ℕ
  pub byte_mask : ℕ

abbrev pub load_waits : LoadState → Bool
load_waits load_wait_send = true
load_waits load_inflight = false
load_waits load_executed = false

abbrev pub store_waits : StoreState → Bool
store_waits store_wait_send = true
store_waits store_inflight = false
store_waits store_executed = false

-- `address & ~(m_dCacheAlignByte - 1)`: the `int` under `~` is widened with its sign.
abbrev pub align : ℕ → ℕ → ℕ
align bytes address = bit_and address (sub64 0 bytes)

-- The load that the loop stops at.
abbrev pub is_next_load : LdqEntry → Bool
is_next_load e = load_waits e.state && not e.killed

abbrev pub is_ready_load : LdqEntry → Bool
is_ready_load e = e.address_ready && not e.has_dependancy

-- What happens at that load; `some (none, l)` leaves `Success` false.
unfoldable pub send_load : ℕ → ℕ → MemReq → ℕ → LdqEntry → Lsq → Option (Option MemReq × Lsq)
send_load hart xlen req ptr e l =
    if is_ready_load e
    then (do
      q ← LoopQueue.put l.load_queue ptr (record e { state = load_inflight })
      let req' = record req {
        opcode = op_load;
        hart_id = hart;
        trans_id = ptr;
        address = align l.d_cache_align_byte e.address;
        length = u16 (xlen / 8);
      }
      some (some req', record l { load_queue = q }))
    else some (none, l)

unfoldable pub try_issue_load : ℕ → ℕ → MemReq → Lsq → Option (Option MemReq × Lsq)
unfolding send_load
try_issue_load hart xlen req l = if LoopQueue.empty l.load_queue then some (none, l) else (do
  found ← Scan.scan l.load_queue is_next_load l.load_queue.usage (u16 l.load_queue.header)
  elim found [ none ↦ some (none, l) | some (ptr, e) ↦ send_load hart xlen req ptr e l ])

-- `for(it = offset; it < 8; it++) Data[it] = (data >> ((it - offset) << 3)) & 0xff`, with the rounds
-- that are left.
unfoldable pub write_bytes : ℕ → ℕ → ℕ → ℕ → List ℕ → List ℕ
write_bytes zero it offset value buffer = buffer
write_bytes (suc left) it offset value buffer =
    write_bytes left (it + 1) offset value
      (set buffer it (bit_and (value >>> ((it - offset) << 3)) 0xff))

-- `((2 << (n - 1)) - 1) << offset` for the n bytes that `op` stores, as an `int`; other numbers leave
-- the mask of the request.
abbrev pub byte_count : ℕ → Option ℕ
byte_count zero = some 1
byte_count (suc zero) = some 2
byte_count (suc (suc zero)) = some 4
byte_count (suc (suc (suc zero))) = some 8
byte_count (suc (suc (suc (suc n)))) = none

unfoldable pub store_mask : ℕ → ℕ → ℕ → Option ℕ
store_mask op offset old = elim (byte_count op) [
  | none ↦ some old
  | some n ↦ let mask = (2 ^ n - 1) << offset in if ltb mask (2 ^ 31) then some mask else none
]

unfoldable pub send_store : ℕ → ℕ → MemReq → ℕ → StqEntry → Lsq → Option (Option MemReq × Lsq)
unfolding write_bytes store_mask
send_store hart xlen req ptr e l =
    if e.commited
    then (do
      let offset = bit_and e.address (l.d_cache_align_byte - 1)
      q ← LoopQueue.put l.store_queue ptr (record e { state = store_inflight })
      mask ← store_mask e.op offset req.byte_mask
      let req' = record req {
        opcode = op_store;
        hart_id = hart;
        trans_id = ptr;
        buffer = write_bytes (8 - offset) offset offset e.value req.buffer;
        address = align l.d_cache_align_byte e.address;
        length = u16 (xlen / 8);
        byte_mask = mask;
      }
      some (some req', record l { store_queue = q }))
    else some (none, l)

unfoldable pub try_issue_store : ℕ → ℕ → MemReq → Lsq → Option (Option MemReq × Lsq)
unfolding send_store
try_issue_store hart xlen req l = if LoopQueue.empty l.store_queue then some (none, l) else (do
  found ←
      Scan.scan l.store_queue (λ e. store_waits e.state) l.store_queue.usage
        (u16 l.store_queue.header)
  elim found [ none ↦ some (none, l) | some (ptr, e) ↦ send_store hart xlen req ptr e l ])
