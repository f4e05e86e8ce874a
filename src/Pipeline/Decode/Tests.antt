-- ===== src/Pipeline/Decode/Tests.antt =====
-- The theorems about src/Processor/Pipeline/Decode.cc, at a queue of two entries.
use riscv_cmodel_h.Base.{
  ℕ, ◌<◌, ◌≡◌, ◌⊎◌, refl, true, false, none, some, ◌>>=◌, List, [], ◌∷◌, arith,
}
use riscv_cmodel_h.Insn.{DynInsn, blank_insn}
use riscv_cmodel_h.LoopQueue
use riscv_cmodel_h.LoopQueue.{LoopQueue}
use riscv_cmodel_h.Rcu.Rename.Sequential.{IsTyped}
use riscv_cmodel_h.Isa.Decoder.Outcome.{priv_m}
use riscv_cmodel_h.Pipeline.Decode.{receive_req, send_req}
use riscv_cmodel_h.Pipeline.Decode.Fifo.{
  HoldsTyped, Accepts, receive_req-Accepts, Sends, send_req-Sends,
}

abbrev fetched : ℕ → DynInsn
fetched w = record blank_insn { pc = 0x80000000; compressed_insn = w }

fetched-IsTyped : (w : ℕ) → IsTyped (fetched w)
fetched-IsTyped w = record {
  rs1 = λ e. refl;
  rs2 = λ e. refl;
  rd = λ e. refl;
  rs1_in = omega arith;
  rs2_in = omega arith;
  rd_in = omega arith;
}

-- One instruction, at the end of the vector.
abbrev one_held : LoopQueue DynInsn
one_held = record { data_vec = blank_insn ∷ fetched 0x13 ∷ []; header = 1; tail = 0; usage = 1 }

one_held-HoldsTyped : HoldsTyped one_held
one_held-HoldsTyped = record {
  valid = record {
    sized = omega arith;
    header_in = omega arith;
    usage_in = omega arith;
    tail_eq = refl;
  };
  typed = (fetched-IsTyped 0x13, tt);
}

-- sw x1, -4(x2) and mret
abbrev two_fetched : List DynInsn
two_fetched = fetched 0xfe112e23 ∷ fetched 0x30200073 ∷ []

receive_req-Accepts_example :
    ((false ≡ true)
      × (LoopQueue.get_avail_entry_count one_held < 2)
      × (receive_req priv_m true false 2 two_fetched one_held ≡ some (none, one_held)))
    ⊎ Accepts priv_m true false 2 two_fetched one_held
receive_req-Accepts_example =
    receive_req-Accepts priv_m true false 2 two_fetched one_held one_held-HoldsTyped
      (fetched-IsTyped 0xfe112e23, (fetched-IsTyped 0x30200073, tt)) (omega arith)

-- There is room for the first of them.
taken_one : (receive_req priv_m true false 2 two_fetched one_held >>= λ r. r.0) ≡ some 1
unfolding receive_req LoopQueue.get_size LoopQueue.full LoopQueue.push
taken_one = refl

busy : LoopQueue.empty one_held ≡ false
unfolding LoopQueue.empty
busy = refl

send_req-Sends_example : Sends 2 one_held
send_req-Sends_example = send_req-Sends 2 one_held one_held-HoldsTyped busy

-- Nothing goes to a port that is stalled.
sent_nothing : send_req 2 true one_held ≡ some none
unfolding send_req LoopQueue.empty
sent_nothing = refl
