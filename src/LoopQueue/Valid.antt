-- ===== src/LoopQueue/Valid.antt =====
-- The representation invariant of a `LoopQueue`, and that every operation keeps it.
use riscv_cmodel_h.Base.{
  ℕ, ◌+◌, ◌-◌, ◌^◌, ◌≤◌, ◌<◌, ◌≡◌, ◌≢◌, some, arith, length, length-set, ltb, if◌then◌else◌,
}
use riscv_cmodel_h.LoopQueue.{
  LoopQueue, header_inc, tail_inc, put, push, pop, roll_back, allocate, get_avail_entry_count,
}

-- The place `k` after `p` on a circle of `n`, for `p < n` and `k ≤ n`.
abbrev pub place : ℕ → ℕ → ℕ → ℕ
place n p k = if ltb (p + k) n then p + k else p + k - n

-- Pointers lie in the vector, and the tail stands `usage` places after the header, going round.
pub record IsValid {A : Type 0} (q : LoopQueue A) : Type 0 where
  pub sized : length q.data_vec < 2 ^ 63
  pub header_in : q.header < length q.data_vec
  pub usage_in : q.usage ≤ length q.data_vec
  pub tail_eq : q.tail ≡ place (length q.data_vec) q.header q.usage

module _ {A : Type 0} where
  pub tail_in : {q : LoopQueue A} → IsValid q → q.tail < length q.data_vec
  tail_in v = ground arith

  pub avail_lem :
      {q : LoopQueue A} → IsValid q → get_avail_entry_count q + q.usage ≡ length q.data_vec
  unfolding get_avail_entry_count
  avail_lem v = omega arith

  pub tail_inc-IsValid :
      {q : LoopQueue A} → IsValid q → q.usage ≢ length q.data_vec → IsValid (tail_inc q)
  unfolding tail_inc
  tail_inc-IsValid v h = ground arith

  pub header_inc-IsValid : {q : LoopQueue A} → IsValid q → q.usage ≢ 0 → IsValid (header_inc q)
  unfolding header_inc
  header_inc-IsValid v h = ground arith

  pub put-IsValid : {q r : LoopQueue A} (i : ℕ) (x : A) → IsValid q → put q i x ≡ some r → IsValid r
  unfolding put
  put-IsValid {q} i x v e = ground (arith, length-set q.data_vec i x)

  pub push-IsValid : {q r : LoopQueue A} (x : A) → IsValid q → push q x ≡ some r → IsValid r
  unfolding push
  push-IsValid {q} x v e = ground (arith, length-set q.data_vec q.tail x)

  pub allocate-IsValid :
      {q r : LoopQueue A} {i : ℕ} → IsValid q → allocate q ≡ some (i, r) → IsValid r
  unfolding allocate
  allocate-IsValid v e = ground arith

  pub roll_back-IsValid : {q r : LoopQueue A} → IsValid q → roll_back q ≡ some r → IsValid r
  unfolding roll_back
  roll_back-IsValid v e = ground arith

  pub pop-IsValid : {q r : LoopQueue A} {x : A} → IsValid q → pop q ≡ some (x, r) → IsValid r
  unfolding pop
  pop-IsValid v e = ground arith
