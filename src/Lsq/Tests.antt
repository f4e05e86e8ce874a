-- ===== src/Lsq/Tests.antt =====
-- The theorems about src/Processor/Component/Lsq.cc, at queues of two places.
use riscv_cmodel_h.Base.{◌≡◌, refl, true, some, [], ◌∷◌, arith, replicate}
use riscv_cmodel_h.LoopQueue.{LoopQueue}
use riscv_cmodel_h.Lsq.{Lsq, LdqEntry, blank_ldq, blank_stq, store_executed}
use riscv_cmodel_h.Lsq.Issue.{MemReq, op_fetch, try_issue_load, try_issue_store}
use riscv_cmodel_h.Lsq.Order.{
  LoadOutcome, StoreOutcome, try_issue_load-LoadOutcome, try_issue_store-StoreOutcome,
}
use riscv_cmodel_h.Lsq.Retire.{evaluate, store_done, load_leaves}
use riscv_cmodel_h.Lsq.Drain.{IsSound, Drained, LoadsKept, evaluate-Drained}

-- A load that may be sent and one that waits for the store in place 1; an executed store and a
-- committed one.
abbrev queues : Lsq
queues = record {
  d_cache_align_byte = 8;
  load_queue = record {
    data_vec =
        record blank_ldq { address_ready = true; address = 20 }
        ∷ record blank_ldq { address_ready = true; has_dependancy = true; oldest_stq_tag = 1 }
        ∷ [];
    header = 0;
    tail = 0;
    usage = 2;
  };
  store_queue = record {
    data_vec =
        record blank_stq { commited = true; address = 9; value = 255 }
        ∷ record blank_stq { commited = true; state = store_executed }
        ∷ [];
    header = 1;
    tail = 1;
    usage = 2;
  };
}

queues-IsSound : IsSound queues
queues-IsSound = record {
  stores = record {
    sized = omega arith;
    header_in = omega arith;
    usage_in = omega arith;
    tail_eq = refl;
  };
  loads = record {
    sized = omega arith;
    header_in = omega arith;
    usage_in = omega arith;
    tail_eq = refl;
  };
  few_loads = omega arith;
}

abbrev request : MemReq
request = record {
  hart_id = 0;
  trans_id = 0;
  address = 0;
  opcode = op_fetch;
  length = 0;
  buffer = replicate 8 0;
  byte_mask = 0;
}

try_issue_load-LoadOutcome_example :
    LoadOutcome 0 64 request queues (try_issue_load 0 64 request queues)
try_issue_load-LoadOutcome_example =
    try_issue_load-LoadOutcome 0 64 request queues queues-IsSound.loads (omega arith)

try_issue_store-StoreOutcome_example :
    StoreOutcome 0 64 request queues (try_issue_store 0 64 request queues)
try_issue_store-StoreOutcome_example =
    try_issue_store-StoreOutcome 0 64 request queues queues-IsSound.stores (omega arith) refl

evaluate-Drained_example :
    (l : Lsq) × (loads : LoopQueue LdqEntry) × (evaluate queues ≡ some l)
    × Drained store_done queues.store_queue l.store_queue
    × LoadsKept queues.load_queue loads
    × Drained load_leaves loads l.load_queue
evaluate-Drained_example = evaluate-Drained queues queues-IsSound
