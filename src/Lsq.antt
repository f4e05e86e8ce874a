-- ===== src/Lsq.antt =====
-- src/Processor/Component/Lsq.hh and Lsq.cc: the load queue and the store queue. `none` is a failed
-- DASSERT, an index past a queue or a shift that overflows `int`. The `insnPtr` of an entry is left
-- out: this component only prints it.
pub mod Issue
pub mod Order
pub mod Retire
pub mod Drain
pub mod Dependancy
mod Tests
use riscv_cmodel_h.Base.{
  ℕ, zero, suc, ◌+◌, ◌-◌, ◌*◌, ◌/◌, ◌%◌, ◌^◌, Bool, true, false, not, ◌&&◌, ◌||◌, Option, none,
  some, List, [], ◌∷◌, u16, u64, sub64, bit_and, ltb, ◌==◌, if◌then◌else◌, set, assert, ◌>>=◌, ◌>>◌,
  ◌<<◌, ◌>>>◌,
}
use riscv_cmodel_h.LoopQueue
use riscv_cmodel_h.LoopQueue.{LoopQueue}
use riscv_cmodel_h.Insn.{FuncType, ldu, stu, fu_eq, DynInsn, InsnPkg}

-- `loadState_t` and `storeState_t`
pub data LoadState : Type 0 where
  load_wait_send load_inflight load_executed : LoadState

pub data StoreState : Type 0 where
  store_wait_send store_inflight store_executed : StoreState

-- `LDQ_entry_t`
pub record LdqEntry : Type 0 where
  pub state : LoadState
  pub killed : Bool
  pub commited : Bool
  pub has_dependancy : Bool
  pub oldest_stq_tag : ℕ
  pub address_ready : Bool
  pub is_virtual : Bool
  pub address : ℕ
  pub op : ℕ

-- `STQ_entry_t`. (A field `data` is spelled `value`.)
pub record StqEntry : Type 0 where
  pub state : StoreState
  pub commited : Bool
  pub address_ready : Bool
  pub is_virtual : Bool
  pub address : ℕ
  pub op : ℕ
  pub data_ready : Bool
  pub value : ℕ

pub record Lsq : Type 0 where
  pub d_cache_align_byte : ℕ
  pub store_queue : LoopQueue StqEntry
  pub load_queue : LoopQueue LdqEntry

abbrev pub blank_ldq : LdqEntry
blank_ldq = record {
  state = load_wait_send;
  killed = false;
  commited = false;
  has_dependancy = false;
  oldest_stq_tag = 0;
  address_ready = false;
  is_virtual = false;
  address = 0;
  op = 0;
}

abbrev pub blank_stq : StqEntry
blank_stq = record {
  state = store_wait_send;
  commited = false;
  address_ready = false;
  is_virtual = false;
  address = 0;
  op = 0;
  data_ready = false;
  value = 0;
}

unfoldable pub reset : Lsq → Lsq
reset l = record l {
  store_queue = LoopQueue.reset blank_stq l.store_queue;
  load_queue = LoopQueue.reset blank_ldq l.load_queue;
}

-- A change of one entry through `operator[]`.
unfoldable pub on_load : ℕ → (LdqEntry → LdqEntry) → Lsq → Option Lsq
on_load tag f l = do
  e ← LoopQueue.at l.load_queue tag
  q ← LoopQueue.put l.load_queue tag (f e)
  some (record l { load_queue = q })

unfoldable pub on_store : ℕ → (StqEntry → StqEntry) → Lsq → Option Lsq
on_store tag f l = do
  e ← LoopQueue.at l.store_queue tag
  q ← LoopQueue.put l.store_queue tag (f e)
  some (record l { store_queue = q })

unfoldable pub write_back : DynInsn → Lsq → Option Lsq
unfolding on_load on_store
write_back insn l =
    if fu_eq insn.fu ldu
    then on_load insn.lsq_tag
        (λ e. record e { is_virtual = false; address_ready = true; address = insn.agu_addr }) l
    else if fu_eq insn.fu stu
    then on_store insn.lsq_tag
        (λ e. record e {
          is_virtual = false;
          address_ready = true;
          address = insn.agu_addr;
          value = insn.agu_data;
        })
        l
    else some l

-- The loop of `TryAllocate`, with the loads and stores counted so far; the result counts from here on.
unfoldable pub try_allocate_from : Lsq → ℕ → ℕ → InsnPkg → ℕ
try_allocate_from l loads stores [] = 0
try_allocate_from l loads stores (none ∷ rest) = suc (try_allocate_from l loads stores rest)
try_allocate_from l loads stores (some insn ∷ rest) = elim (fu_eq insn.fu ldu) [
  | true ↦ elim (ltb loads (LoopQueue.get_avail_entry_count l.load_queue)) [
    | true ↦ suc (try_allocate_from l (loads + 1) stores rest)
    | false ↦ 0
  ]
  | false ↦ elim (fu_eq insn.fu stu) [
    | true ↦ elim (ltb stores (LoopQueue.get_avail_entry_count l.store_queue)) [
      | true ↦ suc (try_allocate_from l loads (stores + 1) rest)
      | false ↦ 0
    ]
    | false ↦ suc (try_allocate_from l loads stores rest)
  ]
]

unfoldable pub try_allocate : Lsq → InsnPkg → ℕ
unfolding try_allocate_from
try_allocate l pkg = try_allocate_from l 0 0 pkg

unfoldable pub create_ldq_entry : DynInsn → Lsq → Option Lsq
create_ldq_entry insn l = do
  q ← LoopQueue.put l.load_queue insn.lsq_tag (record blank_ldq {
    has_dependancy = not (LoopQueue.empty l.store_queue);
    oldest_stq_tag = u16 (LoopQueue.get_last_ptr l.store_queue l.store_queue.tail);
    op = insn.sub_op;
  })
  some (record l { load_queue = q })

unfoldable pub create_stq_entry : DynInsn → Lsq → Option Lsq
create_stq_entry insn l = do
  q ← LoopQueue.put l.store_queue insn.lsq_tag (record blank_stq { op = insn.sub_op })
  some (record l { store_queue = q })

-- The body of the loop of `Allocate`, for an instruction that is there.
unfoldable pub allocate_insn : DynInsn → Lsq → Option (DynInsn × Lsq)
unfolding create_ldq_entry create_stq_entry
allocate_insn insn l =
    if fu_eq insn.fu ldu
    then (do
      (tag, q) ← LoopQueue.allocate l.load_queue
      let insn' = record insn { lsq_tag = tag }
      l' ← create_ldq_entry insn' (record l { load_queue = q })
      some (insn', l'))
    else if fu_eq insn.fu stu
    then (do
      (tag, q) ← LoopQueue.allocate l.store_queue
      let insn' = record insn { lsq_tag = tag }
      l' ← create_stq_entry insn' (record l { store_queue = q })
      some (insn', l'))
    else some (insn, l)

-- `Allocate` on the first `count` instructions; a count past the package is an access out of range.
unfoldable pub allocate : ℕ → InsnPkg → Lsq → Option (InsnPkg × Lsq)
unfolding allocate_insn
allocate zero pkg l = some (pkg, l)
allocate (suc count) [] l = none
allocate (suc count) (none ∷ rest) l = do
  (rest', l') ← allocate count rest l
  some (none ∷ rest', l')
allocate (suc count) (some insn ∷ rest) l = do
  (insn', l') ← allocate_insn insn l
  (rest', l'') ← allocate count rest l'
  some (some insn' ∷ rest', l'')

unfoldable pub kill_load_entry : ℕ → Lsq → Option Lsq
unfolding on_load
kill_load_entry tag l = on_load tag (λ e. record e { killed = true }) l

-- The tag is not looked at: the youngest store goes.
unfoldable pub kill_store_entry : ℕ → Lsq → Option Lsq
kill_store_entry tag l = do
  q ← LoopQueue.roll_back l.store_queue
  some (record l { store_queue = q })

unfoldable pub commit_load_entry : ℕ → Lsq → Option Lsq
unfolding on_load
commit_load_entry tag l = on_load tag (λ e. record e { commited = true }) l

unfoldable pub commit_store_entry : ℕ → Lsq → Option Lsq
unfolding on_store
commit_store_entry tag l = on_store tag (λ e. record e { commited = true }) l
