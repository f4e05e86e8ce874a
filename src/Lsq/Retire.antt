-- ===== src/Lsq/Retire.antt =====
-- `Evaulate` of src/Processor/Component/Lsq.cc, which takes finished stores and loads off the fronts
-- of the two queues.
use riscv_cmodel_h.Base.{
  ℕ, zero, suc, ◌+◌, Bool, true, false, not, ◌&&◌, ◌||◌, Option, none, some, u16, ◌==◌,
  if◌then◌else◌, ◌>>=◌,
}
use riscv_cmodel_h.LoopQueue
use riscv_cmodel_h.LoopQueue.{LoopQueue}
use riscv_cmodel_h.Lsq.{Lsq, LdqEntry, StqEntry, load_inflight, store_executed}

abbrev pub store_done : StqEntry → Bool
store_done e = elim e.state [ store_executed ↦ true | _ ↦ false ]

abbrev pub load_in_flight : LdqEntry → Bool
load_in_flight e = elim e.state [ load_inflight ↦ true | _ ↦ false ]

-- A load that waits for the store at the header no longer does.
abbrev pub clear_dependancy : ℕ → LdqEntry → LdqEntry
clear_dependancy header e =
    if e.has_dependancy && (e.oldest_stq_tag == header)
    then record e { has_dependancy = false }
    else e

-- `for(i = 0; i < m_LoadQueue.getUsage(); i++)` over the loads, for the store at `header`.
unfoldable pub clear_from : ℕ → ℕ → ℕ → LoopQueue LdqEntry → Option (LoopQueue LdqEntry)
clear_from header zero ptr q = some q
clear_from header (suc n) ptr q = do
  e ← LoopQueue.at q ptr
  q' ← LoopQueue.put q ptr (clear_dependancy header e)
  clear_from header n (u16 (LoopQueue.get_next_ptr q' ptr)) q'

-- One round of the first loop: the store at the front has been executed.
unfoldable pub retire_store : Lsq → Option Lsq
unfolding clear_from
retire_store l = do
  loads ← clear_from l.store_queue.header l.load_queue.usage (u16 l.load_queue.header) l.load_queue
  (_, stores) ← LoopQueue.pop l.store_queue
  some (record l { store_queue = stores; load_queue = loads })

-- `while(!m_StoreQueue.empty() && m_StoreQueue.front().state == store_Executed)`; each round takes one
-- store off, so as many rounds as there are stores and one more are enough.
unfoldable pub retire_stores : ℕ → Lsq → Option Lsq
unfolding retire_store
retire_stores zero l = none
retire_stores (suc n) l = elim (LoopQueue.empty l.store_queue) [
  | true ↦ some l
  | false ↦ do
    e ← LoopQueue.front l.store_queue
    elim (store_done e) [ true ↦ do l' ← retire_store l; retire_stores n l' | false ↦ some l ]
]

-- The load at the front goes if it is committed, or killed and not in flight.
abbrev pub load_leaves : LdqEntry → Bool
load_leaves e = e.commited || (e.killed && not (load_in_flight e))

unfoldable pub retire_loads : ℕ → Lsq → Option Lsq
retire_loads zero l = none
retire_loads (suc n) l = elim (LoopQueue.empty l.load_queue) [
  | true ↦ some l
  | false ↦ do
    e ← LoopQueue.at l.load_queue l.load_queue.header
    elim (load_leaves e) [
      | true ↦ do (_, q) ← LoopQueue.pop l.load_queue; retire_loads n (record l { load_queue = q })
      | false ↦ some l
    ]
]

unfoldable pub evaluate : Lsq → Option Lsq
unfolding retire_stores retire_loads
evaluate l = do
  l' ← retire_stores (l.store_queue.usage + 1) l
  retire_loads (l'.load_queue.usage + 1) l'
