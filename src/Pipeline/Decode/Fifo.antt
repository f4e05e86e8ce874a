-- ===== src/Pipeline/Decode/Fifo.antt =====
-- Proofs about src/Processor/Pipeline/Decode.cc: what the stage takes in and sends on.
use riscv_cmodel_h.Base.{
  ℕ, zero, suc, ◌+◌, ◌^◌, ◌≤◌, ◌<◌, ◌≡◌, refl, ap, ap₂, sym, ◌∙◌, Bool, true, false, not, ◌||◌, leb,
  Bool-cases, ◌⊎◌, inl, inr, arith, Option, none, some, List, [], ◌∷◌, ◌++◌, map, append-nil,
  append_assoc, length, get_elem?, get_elem?_total, All, take, min,
}
use mathlib.Core.Path.{subst}
use riscv_cmodel_h.Insn.{DynInsn, InsnState, state_decode}
use riscv_cmodel_h.LoopQueue
use riscv_cmodel_h.LoopQueue.{LoopQueue}
use riscv_cmodel_h.LoopQueue.Valid.{IsValid}
use riscv_cmodel_h.LoopQueue.Refine.{contents, window, next, push_refines}
use riscv_cmodel_h.Rcu.Rename.Sequential.{IsTyped, TypedCell}
use riscv_cmodel_h.Isa.Decoder.Outcome.{PrivLevel}
use riscv_cmodel_h.Isa.Decoder.Keeps.{if_both}
use riscv_cmodel_h.Isa.Decoder.Typed.{decode_func-IsTyped}
use riscv_cmodel_h.Pipeline.Decode.{decode_insn, receive_from, receive_req, send_from, send_req}

-- The fields that `IsTyped` reads are left alone.
state-IsTyped :
    (insn : DynInsn) (s : InsnState) → IsTyped insn → IsTyped (record insn { state = s })
state-IsTyped insn s v = record {
  rs1 = v.rs1;
  rs2 = v.rs2;
  rd = v.rd;
  rs1_in = v.rs1_in;
  rs2_in = v.rs2_in;
  rd_in = v.rd_in;
}

flow-IsTyped :
    (insn : DynInsn) (b : Bool) → IsTyped insn → IsTyped (record insn { control_flow_insn = b })
flow-IsTyped insn b v = record {
  rs1 = v.rs1;
  rs2 = v.rs2;
  rd = v.rd;
  rs1_in = v.rs1_in;
  rs2_in = v.rs2_in;
  rd_in = v.rd_in;
}

decode_insn-IsTyped :
    (priv : PrivLevel) (speculation : Bool) (insn : DynInsn)
    → IsTyped insn
    → IsTyped (decode_insn priv speculation insn)
unfolding decode_insn
decode_insn-IsTyped priv speculation insn v =
    let received = state-IsTyped insn state_decode v in
    let decoded = decode_func-IsTyped priv (record insn { state = state_decode }) received in
    elim (Bool-cases insn.excp.valid) [
      | inl h ↦ simp h received
      | inr h ↦ simp h (if_both IsTyped _ (flow-IsTyped _ false decoded) decoded)
    ]

-- The next instructions of the package, decoded, as cells of the queue.
abbrev pub decoded : PrivLevel → Bool → List DynInsn → List (Option DynInsn)
decoded priv speculation insns = map (λ insn. some (decode_insn priv speculation insn)) insns

-- What the loop of `ReceiveReq` makes of a package.
pub record Receives (priv : PrivLevel) (speculation : Bool) (insns : List DynInsn) (taken : ℕ)
    (q : LoopQueue DynInsn) : Type 0 where
  pub n : ℕ
  pub after : LoopQueue DynInsn
  pub ran : receive_from priv speculation insns taken q ≡ some (taken + n, after)
  pub valid : IsValid after
  pub appended : contents after ≡ contents q ++ decoded priv speculation (take n insns)
  pub enough : (n ≡ length insns) ⊎ (LoopQueue.full after ≡ true)

-- The loop of `ReceiveReq` never faults on a queue in order: it decodes the first instructions of the
-- package and appends them in order, all of them or until the queue is full.
pub receive_from-Receives :
    (priv : PrivLevel) (speculation : Bool) (insns : List DynInsn) (taken : ℕ)
    (q : LoopQueue DynInsn)
    → IsValid q
    → Receives priv speculation insns taken q
unfolding receive_from
receive_from-Receives priv speculation [] taken q v = record {
  n = 0;
  after = q;
  ran = ap (λ k. some (k, q)) (omega arith);
  valid = v;
  appended = sym (append-nil (contents q));
  enough = inl refl;
}
receive_from-Receives priv speculation (insn ∷ insns) taken q v =
    elim (Bool-cases (LoopQueue.full q)) [
      | inl h ↦ record {
        n = 0;
        after = q;
        ran = simp h (ap (λ k. some (k, q)) (omega arith));
        valid = v;
        appended = sym (append-nil (contents q));
        enough = inr h;
      }
      | inr h ↦ elim (push_refines q (decode_insn priv speculation insn) v) [
        | inl f ↦ absurd (unfold LoopQueue.full in ground (arith, f.0, h))
        | inr (r, pushed, valid, held) ↦
            let rest = receive_from-Receives priv speculation insns (taken + 1) r valid in
            let more : taken + 1 + rest.n ≡ taken + suc rest.n = omega arith in
            record {
              n = suc rest.n;
              after = rest.after;
              ran = simp (h, pushed) (rest.ran ∙ ap (λ k. some (k, rest.after)) more);
              valid = rest.valid;
              appended =
                  rest.appended
                  ∙ ap (λ xs. xs ++ decoded priv speculation (take rest.n insns)) held
                  ∙ append_assoc (contents q) (some (decode_insn priv speculation insn) ∷ [])
                      (decoded priv speculation (take rest.n insns));
              enough = elim rest.enough [ inl e ↦ inl (ap suc e) | inr e ↦ inr e ];
            }
      ]
    ]

All-++ :
    (xs ys : List (Option DynInsn)) → All TypedCell xs → All TypedCell ys → All TypedCell (xs ++ ys)
All-++ [] ys t u = u
All-++ (x ∷ xs) ys t u = (t.0, All-++ xs ys t.1 u)

All-decoded :
    (priv : PrivLevel) (speculation : Bool) (n : ℕ) (insns : List DynInsn)
    → All IsTyped insns
    → All TypedCell (decoded priv speculation (take n insns))
All-decoded priv speculation zero insns t = tt
All-decoded priv speculation (suc n) [] t = tt
All-decoded priv speculation (suc n) (insn ∷ insns) t =
    (decode_insn-IsTyped priv speculation insn t.0, All-decoded priv speculation n insns t.1)

All-take : (n : ℕ) (xs : List (Option DynInsn)) → All TypedCell xs → All TypedCell (take n xs)
All-take zero xs t = tt
All-take (suc n) [] t = tt
All-take (suc n) (x ∷ xs) t = (t.0, All-take n xs t.1)

take-window : (xs : List DynInsn) (n p k m : ℕ) → k ≤ m → take k (window xs n p m) ≡ window xs n p k
take-window xs n p zero m h = refl
take-window xs n p (suc k) zero h = absurd (omega (arith, h))
take-window xs n p (suc k) (suc m) h =
    ap (λ t. get_elem? xs p ∷ t) (take-window xs n (next n p) k m (omega (arith, h)))

-- The cells that the loop of `SendReq` reads.
send_from-window :
    (left ptr : ℕ) (q : LoopQueue DynInsn)
    → length q.data_vec < 2 ^ 63
    → ptr < length q.data_vec
    → (pkg : List DynInsn) × (send_from left ptr q ≡ some pkg)
      × (map some pkg ≡ window q.data_vec (length q.data_vec) ptr left)
unfolding send_from LoopQueue.at LoopQueue.get_next_ptr
send_from-window zero ptr q sized h = ([], refl, refl)
send_from-window (suc left) ptr q sized h =
    let cell = get_elem?_total q.data_vec ptr h in
    let step : LoopQueue.get_next_ptr q ptr ≡ next (length q.data_vec) ptr = ground arith in
    let rest = send_from-window left (next (length q.data_vec) ptr) q sized (ground arith) in
    (cell.0 ∷ rest.0, simp (cell.1, step, rest.1) refl, ap₂ ◌∷◌ (sym cell.1) rest.2)

-- A queue in order whose instructions are all typed.
pub record HoldsTyped (q : LoopQueue DynInsn) : Type 0 where
  pub valid : IsValid q
  pub typed : All TypedCell (contents q)

-- What `ReceiveReq` makes of a package that it takes.
pub record Accepts (priv : PrivLevel) (speculation must_take_all : Bool) (count : ℕ)
    (insns : List DynInsn) (q : LoopQueue DynInsn) : Type 0 where
  pub n : ℕ
  pub after : LoopQueue DynInsn
  pub ran : receive_req priv speculation must_take_all count insns q ≡ some (some n, after)
  pub holds : HoldsTyped after
  pub appended : contents after ≡ contents q ++ decoded priv speculation (take n insns)
  pub enough : (n ≡ length insns) ⊎ (LoopQueue.full after ≡ true)

-- The stage's queue is in order and holds typed instructions, and the packages fit it. Then `ReceiveReq`
-- faults on no package of typed instructions: where the whole package must fit and does not, the port is
-- stalled and the queue left alone; else the first instructions, decoded, go behind those held, all of
-- them or until the queue is full, their number is acknowledged, and the queue stays as it was said.
pub receive_req-Accepts :
    (priv : PrivLevel) (speculation must_take_all : Bool) (count : ℕ) (insns : List DynInsn)
    (q : LoopQueue DynInsn)
    → HoldsTyped q
    → All IsTyped insns
    → count ≤ length q.data_vec
    → ((must_take_all ≡ true)
        × (LoopQueue.get_avail_entry_count q < count)
        × (receive_req priv speculation must_take_all count insns q ≡ some (none, q)))
      ⊎ Accepts priv speculation must_take_all count insns q
unfolding receive_req LoopQueue.get_size
receive_req-Accepts priv speculation must_take_all count insns q v t fits =
    let r = receive_from-Receives priv speculation insns 0 q v.valid in
    let fit : leb count (length q.data_vec) ≡ true = ground arith in
    elim (Bool-cases (not must_take_all || leb count (LoopQueue.get_avail_entry_count q))) [
      | inl h ↦ inr (record {
        n = r.n;
        after = r.after;
        ran = simp (fit, h, r.ran) (ap (λ k. some (some k, r.after)) (omega arith));
        holds = record {
          valid = r.valid;
          typed = subst (All TypedCell) (sym r.appended) (
              All-++ (contents q) (decoded priv speculation (take r.n insns)) v.typed
                (All-decoded priv speculation r.n insns t));
        };
        appended = r.appended;
        enough = r.enough;
      })
      | inr h ↦ inl (ground (arith, h), ground (arith, h), simp (fit, h) refl)
    ]

-- What `SendReq` sets at its port.
pub record Sends (count : ℕ) (q : LoopQueue DynInsn) : Type 0 where
  pub pkg : List DynInsn
  pub ran : send_req count false q ≡ some (some pkg)
  pub oldest : map some pkg ≡ take (min count q.usage) (contents q)
  pub typed : All TypedCell (map some pkg)

-- From a queue in order that holds typed instructions and is not empty, `SendReq` sets at a port that is
-- not stalled the oldest instructions in order, as many as it may and has, and all of them are typed.
pub send_req-Sends :
    (count : ℕ) (q : LoopQueue DynInsn) → HoldsTyped q → LoopQueue.empty q ≡ false → Sends count q
unfolding send_req
send_req-Sends count q v busy =
    let k = min count q.usage in
    let (pkg, ran, cells) = send_from-window k q.header q v.valid.sized v.valid.header_in in
    let oldest : map some pkg ≡ take k (contents q) =
      cells ∙ sym (take-window q.data_vec (length q.data_vec) q.header k q.usage (omega arith)) in
    record {
      pkg = pkg;
      ran = simp (busy, ran) refl;
      oldest = oldest;
      typed = subst (All TypedCell) (sym oldest) (All-take k (contents q) v.typed);
    }
