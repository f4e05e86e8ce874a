-- ===== src/LoopQueue.antt =====
-- src/Processor/Component/LoopQueue.hh: the circular queue under the reorder buffer and the load and
-- store queues. `none` is a failed DASSERT or an index past the vector. What each operation does
-- is proved in the child modules.
pub mod Valid
pub mod Refine
pub mod Age
pub mod Scan
mod Tests
use riscv_cmodel_h.Base.{
  ℕ, ◌+◌, ◌-◌, ◌%◌, ◌^◌, Bool, true, false, not, xor, Option, none, some, List, u64, add64, sub64,
  ltb, leb, ◌==◌, if◌then◌else◌, length, get_elem?, set, replicate, assert, ◌>>=◌, ◌>>◌, ◌<◌,
}

-- The members of `LoopQueue<T>`: m_dataVec, m_header, m_tail and m_usage.
pub record LoopQueue (A : Type 0) : Type 0 where
  pub data_vec : List A
  pub header : ℕ
  pub tail : ℕ
  pub usage : ℕ

module _ {A : Type 0} where
  unfoldable pub get_size : LoopQueue A → ℕ
  get_size q = length q.data_vec

  unfoldable pub get_avail_entry_count : LoopQueue A → ℕ
  get_avail_entry_count q = sub64 (length q.data_vec) q.usage

  unfoldable pub full : LoopQueue A → Bool
  full q = q.usage == length q.data_vec

  unfoldable pub empty : LoopQueue A → Bool
  empty q = q.usage == 0

  unfoldable pub get_next_ptr : LoopQueue A → ℕ → ℕ
  get_next_ptr q cur = if cur == sub64 (length q.data_vec) 1 then 0 else add64 cur 1

  unfoldable pub get_last_ptr : LoopQueue A → ℕ → ℕ
  get_last_ptr q cur = if cur == 0 then sub64 (length q.data_vec) 1 else sub64 cur 1

  unfoldable pub get_lastest : LoopQueue A → ℕ
  unfolding get_last_ptr
  get_lastest q = get_last_ptr q q.tail

  unfoldable pub header_inc : LoopQueue A → LoopQueue A
  header_inc q = record q {
    header = if q.header == sub64 (length q.data_vec) 1 then 0 else add64 q.header 1;
    usage = sub64 q.usage 1;
  }

  unfoldable pub tail_inc : LoopQueue A → LoopQueue A
  tail_inc q = record q {
    tail = if q.tail == sub64 (length q.data_vec) 1 then 0 else add64 q.tail 1;
    usage = add64 q.usage 1;
  }

  -- `operator[]` read, and an assignment through it.
  unfoldable pub at : LoopQueue A → ℕ → Option A
  at q pos = get_elem? q.data_vec pos

  unfoldable pub put : LoopQueue A → ℕ → A → Option (LoopQueue A)
  put q pos v =
      if ltb pos (length q.data_vec)
      then some (record q { data_vec = set q.data_vec pos v })
      else none

  unfoldable pub front : LoopQueue A → Option A
  unfolding at
  front q = at q q.header

  unfoldable pub push : LoopQueue A → A → Option (LoopQueue A)
  unfolding full put tail_inc
  push q v = do assert (not (full q)); stored ← put q q.tail v; some (tail_inc stored)

  unfoldable pub pop : LoopQueue A → Option (A × LoopQueue A)
  unfolding empty front header_inc
  pop q = do assert (not (empty q)); v ← front q; some (v, header_inc q)

  unfoldable pub roll_back : LoopQueue A → Option (LoopQueue A)
  unfolding empty
  roll_back q = do
    assert (not (empty q))
    some (record q {
      tail = if q.tail == 0 then sub64 (length q.data_vec) 1 else sub64 q.tail 1;
      usage = sub64 q.usage 1;
    })

  unfoldable pub allocate : LoopQueue A → Option (ℕ × LoopQueue A)
  unfolding full tail_inc
  allocate q = do assert (not (full q)); some (q.tail, tail_inc q)

  -- `clear()` and `resize(size)` leave `size` value-initialised elements.
  unfoldable pub reset : A → LoopQueue A → LoopQueue A
  reset fresh q = record {
    data_vec = replicate (length q.data_vec) fresh;
    header = 0;
    tail = 0;
    usage = 0;
  }

  unfoldable pub is_older : LoopQueue A → ℕ → ℕ → Bool
  is_older q tag1 tag2 =
      let tag1_ge_header = leb q.header tag1 in
      let tag2_ge_header = leb q.header tag2 in
      if xor tag1_ge_header tag2_ge_header then ltb tag2 tag1 else ltb tag1 tag2
