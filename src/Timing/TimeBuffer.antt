-- ===== src/Timing/TimeBuffer.antt =====
-- src/Timing/TimeBuffer.hh: the buffer between two stages, which hands a value on some ticks later. A
-- port is its data where it is valid; the two flags that the ports share are fields. With latency 0
-- the two ports are one: `set` writes both.
pub mod Delay
mod Tests
use riscv_cmodel_h.Base.{
  ℕ, ◌+◌, ◌-◌, Bool, true, false, not, ◌==◌, ◌&&◌, leb, if◌then◌else◌, Option, none, some, List, [],
  ◌∷◌, ◌++◌,
}

pub record TimeBuffer {ℓ} (A : Type ℓ) : Type ℓ where
  pub latency : ℕ
  pub in_port : Option A
  pub out_port : Option A
  pub data_queue : List (A × ℕ)
  pub stalled : Bool
  pub flushed : Bool

module _ {ℓ} {A : Type ℓ} where
  -- `TimeBuffer::reset`
  unfoldable pub reset : TimeBuffer A → TimeBuffer A
  reset b = record b {
    flushed = false;
    stalled = false;
    out_port = none;
    in_port = none;
    data_queue = [];
  }

  -- `TimeBuffer::TimeBuffer`
  unfoldable pub construct : ℕ → TimeBuffer A
  construct latency = record {
    latency = latency;
    in_port = none;
    out_port = none;
    data_queue = [];
    stalled = false;
    flushed = false;
  }

  -- `Port::set` and `Port::kill` of the port in front
  unfoldable pub set : A → TimeBuffer A → TimeBuffer A
  set x b = record b { in_port = some x; out_port = if b.latency == 0 then some x else b.out_port }

  unfoldable pub stall : TimeBuffer A → TimeBuffer A
  stall b = record b { stalled = true }

  unfoldable pub flush : TimeBuffer A → TimeBuffer A
  flush b = record b { flushed = true }

  unfoldable pub is_empty : List (A × ℕ) → Bool
  is_empty [] = true
  is_empty (x ∷ xs) = false

  -- `TimeBuffer::isDrained`
  unfoldable pub is_drained : TimeBuffer A → Bool
  unfolding is_empty
  is_drained b = elim b.out_port [ none ↦ is_empty b.data_queue | some x ↦ false ]

  -- The value of the front port goes into the queue, to come out at a later tick.
  unfoldable pub take_in : ℕ → TimeBuffer A → TimeBuffer A
  take_in now b = elim b.in_port [
    | none ↦ b
    | some x ↦ if b.latency == 0 then b else record b {
      data_queue = b.data_queue ++ ((x, now + b.latency - 1) ∷ []);
      in_port = none;
    }
  ]

  -- The port behind is invalid; with latency 0 it is the port in front too.
  unfoldable pub kill_out : TimeBuffer A → TimeBuffer A
  kill_out b = record b { out_port = none; in_port = if b.latency == 0 then none else b.in_port }

  -- The oldest value of the queue comes out once its tick is there.
  unfoldable pub hand_out : ℕ → List (A × ℕ) → TimeBuffer A → TimeBuffer A
  hand_out now [] b = b
  hand_out now (x ∷ rest) b =
      if not (b.latency == 0) && leb x.1 now
      then record b { out_port = some x.0; data_queue = rest }
      else b

  -- What `advance` does where neither flag is set.
  unfoldable pub move : ℕ → TimeBuffer A → TimeBuffer A
  unfolding take_in kill_out hand_out
  move now b = let c = kill_out (take_in now b) in hand_out now c.data_queue c

  -- `TimeBuffer::advance` at the tick `now`
  unfoldable pub advance : ℕ → TimeBuffer A → TimeBuffer A
  unfolding reset move
  advance now b =
      if not b.flushed
      then (if not b.stalled then move now b else record b { stalled = false })
      else reset b
