-- ===== src/LoopQueue/Age.antt =====
-- `isOlder`: the comparison of two tags of a circular queue is the order of their ages.
use riscv_cmodel_h.Base.{
  ℕ, ◌+◌, ◌-◌, ◌<◌, ◌≡◌, ◌≢◌, ◌↔◌, true, arith, length, leb, ltb, xor, if◌then◌else◌,
}
use riscv_cmodel_h.LoopQueue.{LoopQueue, is_older, get_lastest, get_next_ptr, get_last_ptr}
use riscv_cmodel_h.LoopQueue.Valid.{IsValid}

-- How many elements of the queue stand before a tag, counted from the header.
abbrev pub age_of : {A : Type 0} → LoopQueue A → ℕ → ℕ
age_of q tag = if leb q.header tag then tag - q.header else tag + length q.data_vec - q.header

-- The same count over plain numbers, on a circle of `n` that starts at `h`.
abbrev distance : ℕ → ℕ → ℕ → ℕ
distance n h t = if leb h t then t - h else t + n - h

older_iff :
    (n h s t : ℕ)
    → h < n
    → s < n
    → t < n
    → ((if xor (leb h s) (leb h t) then ltb t s else ltb s t) ≡ true)
      ↔ (distance n h s < distance n h t)
older_iff n h s t hh hs ht = ground arith

module _ {A : Type 0} where
  -- On tags within the vector of a valid queue `is_older` says exactly which one stands nearer to the
  -- header.
  pub is_older_iff :
      (q : LoopQueue A) (s t : ℕ)
      → IsValid q
      → s < length q.data_vec
      → t < length q.data_vec
      → (is_older q s t ≡ true) ↔ (age_of q s < age_of q t)
  unfolding is_older
  is_older_iff q s t v hs ht = older_iff (length q.data_vec) q.header s t v.header_in hs ht

  -- The two pointer steps undo one another, round the end of the vector too.
  pub get_last_ptr-get_next_ptr :
      (q : LoopQueue A) (p : ℕ)
      → IsValid q
      → p < length q.data_vec
      → (get_last_ptr q (get_next_ptr q p) ≡ p) × (get_next_ptr q (get_last_ptr q p) ≡ p)
  unfolding get_last_ptr get_next_ptr
  get_last_ptr-get_next_ptr q p v h = ground arith

  -- The latest element of a valid queue that holds any is the last by age.
  pub age_of-get_lastest :
      (q : LoopQueue A) → IsValid q → q.usage ≢ 0 → age_of q (get_lastest q) + 1 ≡ q.usage
  unfolding get_lastest
  age_of-get_lastest q v ne = ground arith
