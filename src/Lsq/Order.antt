-- ===== src/Lsq/Order.antt =====
-- Proofs about src/Processor/Component/Lsq.cc: in which order the load queue and the store queue send their requests.
use riscv_cmodel_h.Base.{
  ℕ, ◌-◌, ◌^◌, ◌≤◌, ◌<◌, ◌≡◌, refl, Bool, true, false, Option, none, some, arith, length, u16, set,
  ◌/◌, Bool-cases, inl, inr, ltb, bit_and, zero, suc, ◌<<◌, lt→ltb,
}
use riscv_cmodel_h.Base.Bits.{bit_and-le}
use riscv_cmodel_h.LoopQueue
use riscv_cmodel_h.LoopQueue.{LoopQueue}
use riscv_cmodel_h.LoopQueue.Valid.{IsValid, place}
use riscv_cmodel_h.LoopQueue.Scan.{
  scan, nth, AllFail, FindsFirst, none_passes, first_passes, scan_all,
}
use riscv_cmodel_h.Lsq.{Lsq, LdqEntry, StqEntry, load_inflight, store_inflight}
use riscv_cmodel_h.Lsq.Issue.{
  MemReq, op_load, op_store, is_next_load, is_ready_load, store_waits, align, try_issue_load,
  try_issue_store, store_mask, write_bytes,
}

-- A shift of an `int` mask of at most 8 bits by less than 8 places stays an `int`.
two-pow-le : (k : ℕ) → k < 8 → 2 ^ k ≤ 128
two-pow-le zero h = omega arith
two-pow-le (suc zero) h = omega arith
two-pow-le (suc (suc zero)) h = omega arith
two-pow-le (suc (suc (suc zero))) h = omega arith
two-pow-le (suc (suc (suc (suc zero)))) h = omega arith
two-pow-le (suc (suc (suc (suc (suc zero))))) h = omega arith
two-pow-le (suc (suc (suc (suc (suc (suc zero)))))) h = omega arith
two-pow-le (suc (suc (suc (suc (suc (suc (suc k))))))) h =
    let e : k ≡ 0 = omega arith in rw e (omega arith)

mask_fits : (n off : ℕ) → n ≤ 255 → off < 8 → ltb (n << off) (2 ^ 31) ≡ true
mask_fits n off h k = lt→ltb (n << off) (2 ^ 31) (grind (arith, two-pow-le off k))

store_mask_total : (op off old : ℕ) → off < 8 → (m : ℕ) × (store_mask op off old ≡ some m)
unfolding store_mask
store_mask_total zero off old h = (1 << off, rw (mask_fits 1 off (omega arith) h))
store_mask_total (suc zero) off old h = (3 << off, rw (mask_fits 3 off (omega arith) h))
store_mask_total (suc (suc zero)) off old h = (15 << off, rw (mask_fits 15 off (omega arith) h))
store_mask_total (suc (suc (suc zero))) off old h =
    (255 << off, rw (mask_fits 255 off (omega arith) h))
store_mask_total (suc (suc (suc (suc n)))) off old h = (old, refl)

-- The queue with the `k`-th load marked as sent.
abbrev pub sent_load : Lsq → ℕ → LdqEntry → Lsq
sent_load l k e = record l {
  load_queue = record l.load_queue {
    data_vec =
        set l.load_queue.data_vec (place (length l.load_queue.data_vec) l.load_queue.header k)
          (record e { state = load_inflight });
  };
}

-- The queue with the `k`-th store marked as sent.
abbrev pub sent_store : Lsq → ℕ → StqEntry → Lsq
sent_store l k e = record l {
  store_queue = record l.store_queue {
    data_vec =
        set l.store_queue.data_vec (place (length l.store_queue.data_vec) l.store_queue.header k)
          (record e { state = store_inflight });
  };
}

abbrev pub is_next_store : StqEntry → Bool
is_next_store e = store_waits e.state

module _ (hart xlen : ℕ) (req : MemReq) where
  -- What `TryIssueLoad` may come to.
  pub data LoadOutcome (l : Lsq) (r : Option (Option MemReq × Lsq)) : Type 0 where
    all_sent :
        r ≡ some (none, l)
        → AllFail l.load_queue is_next_load 0 l.load_queue.usage
        → LoadOutcome l r
    blocked :
        (k : ℕ) (e : LdqEntry)
        → r ≡ some (none, l)
        → k < l.load_queue.usage
        → nth l.load_queue k ≡ some e
        → is_next_load e ≡ true
        → AllFail l.load_queue is_next_load 0 k
        → is_ready_load e ≡ false
        → LoadOutcome l r
    sends :
        (k : ℕ) (e : LdqEntry) (m : MemReq)
        → r ≡ some (some m, sent_load l k e)
        → k < l.load_queue.usage
        → nth l.load_queue k ≡ some e
        → is_next_load e ≡ true
        → AllFail l.load_queue is_next_load 0 k
        → e.address_ready ≡ true
        → e.has_dependancy ≡ false
        → m.address ≡ align l.d_cache_align_byte e.address
        → m.trans_id ≡ place (length l.load_queue.data_vec) l.load_queue.header k
        → LoadOutcome l r

  load_outcome :
      (l : Lsq)
      → IsValid l.load_queue
      → FindsFirst l.load_queue is_next_load
          (scan l.load_queue is_next_load l.load_queue.usage (u16 l.load_queue.header))
      → LoopQueue.empty l.load_queue ≡ false
      → LoadOutcome l (try_issue_load hart xlen req l)
  unfolding try_issue_load LoopQueue.put
  load_outcome l v (none_passes eq rest) busy = all_sent (rw (busy, eq)) rest
  load_outcome l v (first_passes k e eq high at_k passes rest) busy =
      elim (Bool-cases (is_ready_load e)) [
        | inl ready ↦
            sends k e (request k e) (rw (busy, eq) (ground arith)) high at_k passes rest
              (ground arith) (ground arith) refl refl
        | inr waits ↦ blocked k e (rw (busy, eq) (ground arith)) high at_k passes rest waits
      ]
    where
      request : ℕ → LdqEntry → MemReq
      request k e = record req {
        opcode = op_load;
        hart_id = hart;
        trans_id = place (length l.load_queue.data_vec) l.load_queue.header k;
        address = align l.d_cache_align_byte e.address;
        length = u16 (xlen / 8);
      }

  empty_queue :
      {A : Type 0} (q : LoopQueue A) (test : A → Bool)
      → LoopQueue.empty q ≡ true
      → AllFail q test 0 q.usage
  unfolding LoopQueue.empty
  empty_queue q test idle i e low high at_i = absurd (ground arith)

  -- On a valid load queue of at most 2 ^ 16 places `TryIssueLoad` never faults, and it looks at one
  -- load alone: the oldest that waits to be sent and is not killed. It sends that load, at its line
  -- address and under its place in the queue, and marks only it as sent, exactly if its address is
  -- there and no older store holds it back. Otherwise nothing changes.
  pub try_issue_load-LoadOutcome :
      (l : Lsq)
      → IsValid l.load_queue
      → length l.load_queue.data_vec ≤ 2 ^ 16
      → LoadOutcome l (try_issue_load hart xlen req l)
  try_issue_load-LoadOutcome l v small = elim (Bool-cases (LoopQueue.empty l.load_queue)) [
    | inl idle ↦
        all_sent (unfold try_issue_load in rw idle) (empty_queue l.load_queue is_next_load idle)
    | inr busy ↦ load_outcome l v (scan_all l.load_queue is_next_load v small) busy
  ]

  -- What `TryIssueStore` may come to.
  pub data StoreOutcome (l : Lsq) (r : Option (Option MemReq × Lsq)) : Type 0 where
    stores_sent :
        r ≡ some (none, l)
        → AllFail l.store_queue is_next_store 0 l.store_queue.usage
        → StoreOutcome l r
    uncommitted :
        (k : ℕ) (e : StqEntry)
        → r ≡ some (none, l)
        → k < l.store_queue.usage
        → nth l.store_queue k ≡ some e
        → is_next_store e ≡ true
        → AllFail l.store_queue is_next_store 0 k
        → e.commited ≡ false
        → StoreOutcome l r
    sends_store :
        (k : ℕ) (e : StqEntry) (m : MemReq)
        → r ≡ some (some m, sent_store l k e)
        → k < l.store_queue.usage
        → nth l.store_queue k ≡ some e
        → is_next_store e ≡ true
        → AllFail l.store_queue is_next_store 0 k
        → e.commited ≡ true
        → m.address ≡ align l.d_cache_align_byte e.address
        → store_mask e.op (bit_and e.address 7) req.byte_mask ≡ some m.byte_mask
        → StoreOutcome l r

  store_outcome :
      (l : Lsq)
      → IsValid l.store_queue
      → l.d_cache_align_byte ≡ 8
      → FindsFirst l.store_queue is_next_store
          (scan l.store_queue is_next_store l.store_queue.usage (u16 l.store_queue.header))
      → LoopQueue.empty l.store_queue ≡ false
      → StoreOutcome l (try_issue_store hart xlen req l)
  unfolding try_issue_store LoopQueue.put
  store_outcome l v bytes (none_passes eq rest) busy = stores_sent (rw (busy, eq)) rest
  store_outcome l v bytes (first_passes k e eq high at_k passes rest) busy =
      elim (Bool-cases e.commited) [
        | inl done ↦
            sends_store k e (request k e) (rw (busy, eq) (ground (arith, (mask e).1))) high at_k
              passes rest done refl (mask e).1
        | inr waits ↦ uncommitted k e (rw (busy, eq) (ground arith)) high at_k passes rest waits
      ]
    where
      mask :
          (e : StqEntry) → (m : ℕ) × (store_mask e.op (bit_and e.address 7) req.byte_mask ≡ some m)
      mask e =
          store_mask_total e.op (bit_and e.address 7) req.byte_mask
            (omega (arith, bit_and-le e.address 7))

      request : ℕ → StqEntry → MemReq
      request k e = record req {
        opcode = op_store;
        hart_id = hart;
        trans_id = place (length l.store_queue.data_vec) l.store_queue.header k;
        buffer =
            write_bytes (8 - bit_and e.address 7) (bit_and e.address 7) (bit_and e.address 7)
              e.value req.buffer;
        address = align l.d_cache_align_byte e.address;
        length = u16 (xlen / 8);
        byte_mask = (mask e).0;
      }

  -- On a valid store queue of at most 2 ^ 16 places, with lines of 8 bytes, `TryIssueStore` never
  -- faults, and looks at one store alone: the oldest that is not sent yet. It sends that store, at
  -- its line address with the mask of its bytes, and marks only it as sent, exactly if it is
  -- committed. Otherwise nothing changes.
  pub try_issue_store-StoreOutcome :
      (l : Lsq)
      → IsValid l.store_queue
      → length l.store_queue.data_vec ≤ 2 ^ 16
      → l.d_cache_align_byte ≡ 8
      → StoreOutcome l (try_issue_store hart xlen req l)
  try_issue_store-StoreOutcome l v small bytes = elim (Bool-cases (LoopQueue.empty l.store_queue)) [
    | inl idle ↦
        stores_sent (unfold try_issue_store in rw idle)
          (empty_queue l.store_queue is_next_store idle)
    | inr busy ↦ store_outcome l v bytes (scan_all l.store_queue is_next_store v small) busy
  ]
