-- ===== src/Pipeline/Dispatch/Ports.antt =====
-- Proofs about src/Processor/Pipeline/Dispatch.cc: the ports that `TryDispatch` counts are there for
-- `DispatchInsn`.
use riscv_cmodel_h.Base.{
  ℕ, ◌+◌, ◌-◌, ◌≤◌, ◌≡◌, ◌≢◌, refl, sym, ◌∙◌, true, false, not, ◌&&◌, Bool-cases, Option-cases, inl,
  inr, arith, some, List, [], ◌∷◌, min, some_injective, none-ne-some, ◌++◌,
}
use mathlib.Core.Path.{subst}
use riscv_cmodel_h.Insn.{DynInsn, FuncType}
use riscv_cmodel_h.Schedular.{BaseSchedular, IsSchedular}
use riscv_cmodel_h.Pipeline.Dispatch.{DispSchedular, has_port, take_port, enter}

module _ {Q : Type 0} (sched : BaseSchedular Q) (laws : IsSchedular sched) where
  -- How many instructions a scheduler still takes in a cycle.
  abbrev pub room : Q → ℕ
  room q = min (sched.get_availible_entry_count q) (sched.allocated_count q)

  busy-room : (q : Q) → sched.busy q ≡ true → room q ≡ 0
  busy-room q h = ground (arith, h, laws.busy_lem q)

  idle-room : (q : Q) → sched.busy q ≡ false → room q ≢ 0
  idle-room q h = ground (arith, h, laws.busy_lem q)

  room-idle : (q : Q) → room q ≢ 0 → sched.busy q ≡ false
  room-idle q h = ground (arith, h, laws.busy_lem q)

  -- What the schedulers give in `DispatchInsn` covers the ports that are left in `TryDispatch`.
  pub record CoversOne (s t : DispSchedular Q) : Type 0 where
    pub same_support : (fu : FuncType) → s.support fu ≡ t.support fu
    pub within : s.avail_port ≤ room s.queue
    pub covers : s.avail_port ≤ room t.queue

  abbrev pub Covers : List (DispSchedular Q) → List (DispSchedular Q) → Type 0
  Covers [] [] = Unit
  Covers [] (t ∷ ts) = ⊥
  Covers (s ∷ ss) [] = ⊥
  Covers (s ∷ ss) (t ∷ ts) = CoversOne s t × Covers ss ts

  one_less :
      (s t : DispSchedular Q)
      → CoversOne s t
      → CoversOne (record s { avail_port = s.avail_port - 1 }) t
  one_less s t c = record {
    same_support = c.same_support;
    within = omega (arith, c.within);
    covers = omega (arith, c.covers);
  }

  -- A port that `TryDispatch` takes for an instruction that needs none.
  pub take_port-Covers :
      (fu : FuncType) (ss ts ss' : List (DispSchedular Q))
      → take_port sched fu ss ≡ some ss'
      → Covers ss ts
      → Covers ss' ts
  unfolding take_port
  take_port-Covers fu [] ts ss' e c = absurd (none-ne-some e)
  take_port-Covers fu (s ∷ ss) [] ss' e c = absurd c
  take_port-Covers fu (s ∷ ss) (t ∷ ts) ss' e c = elim (Bool-cases (has_port sched fu s)) [
    | inl h ↦ subst (λ x. Covers x (t ∷ ts)) (some_injective (simp h at e)) (one_less s t c.0, c.1)
    | inr h ↦ elim (Option-cases (take_port sched fu ss)) [
      | inl f ↦ absurd (none-ne-some (simp (h, f) at e))
      | inr (rest, f) ↦
          subst (λ x. Covers x (t ∷ ts)) (some_injective (simp (h, f) at e))
            (c.0, take_port-Covers fu ss ts rest f c.1)
    ]
  ]

  no_port :
      (s : DispSchedular Q) (fu : FuncType)
      → s.support fu ≡ true
      → has_port sched fu s ≡ false
      → s.avail_port ≤ room s.queue
      → s.avail_port ≡ 0
  no_port s fu h f w = elim (Bool-cases (sched.busy s.queue)) [
    | inl b ↦ omega (arith, w, busy-room s.queue b)
    | inr b ↦ ground (arith, h, f, b)
  ]

  record Entered (insn : DynInsn) (t : DispSchedular Q) : Type 0 where
    after : DispSchedular Q
    ran : (ts : List (DispSchedular Q)) → enter sched insn (t ∷ ts) ≡ some (after ∷ ts)
    support : (fu : FuncType) → after.support fu ≡ t.support fu
    left : room after.queue + 1 ≡ room t.queue

  -- The first scheduler with the function and with room takes the instruction.
  enter-Entered :
      (insn : DynInsn) (t : DispSchedular Q)
      → t.support insn.fu ≡ true
      → room t.queue ≢ 0
      → Entered insn t
  unfolding enter
  enter-Entered insn t same h =
      let idle = room-idle t.queue h in
      let got = laws.allocate_lem t.queue idle in
      record {
        after = record t {
          queue = got.after;
          enque_latch = t.enque_latch ++ ((got.index, insn) ∷ []);
        };
        ran = λ ts. simp (same, idle, got.ran) refl;
        support = λ fu. refl;
        left = omega (arith, got.fewer_entries, got.fewer_calls);
      }

  -- A scheduler that has taken an instruction covers what is left of one port fewer.
  enter-CoversOne :
      (insn : DynInsn) (s t : DispSchedular Q) (n : ℕ) (got : Entered insn t)
      → CoversOne s t
      → n + 1 ≤ room t.queue
      → n ≤ room s.queue
      → CoversOne (record s { avail_port = n }) got.after
  enter-CoversOne insn s t n got c h w = record {
    same_support = λ fu. c.same_support fu ∙ sym (got.support fu);
    within = w;
    covers = omega (arith, h, got.left);
  }

  enter-skip :
      (insn : DynInsn) (t : DispSchedular Q) (ts ts' : List (DispSchedular Q))
      → (t.support insn.fu && not (sched.busy t.queue)) ≡ false
      → enter sched insn ts ≡ some ts'
      → enter sched insn (t ∷ ts) ≡ some (t ∷ ts')
  unfolding enter
  enter-skip insn t ts ts' k ran = simp (k, ran) refl

  -- A port that `TryDispatch` takes is there for `DispatchInsn`, perhaps at an earlier scheduler.
  pub enter-Covers :
      (insn : DynInsn) (ss ts ss' : List (DispSchedular Q))
      → take_port sched insn.fu ss ≡ some ss'
      → Covers ss ts
      → (ts' : List (DispSchedular Q)) × (enter sched insn ts ≡ some ts') × Covers ss' ts'
  unfolding take_port
  enter-Covers insn [] ts ss' e c = absurd (none-ne-some e)
  enter-Covers insn (s ∷ ss) [] ss' e c = absurd c
  enter-Covers insn (s ∷ ss) (t ∷ ts) ss' e c = elim (Bool-cases (has_port sched insn.fu s)) [
    | inl h ↦
        let same : t.support insn.fu ≡ true = sym (c.0.same_support insn.fu) ∙ ground (arith, h) in
        let got = enter-Entered insn t same (ground (arith, h, c.0.covers)) in
        let one =
          enter-CoversOne insn s t (s.avail_port - 1) got c.0 (ground (arith, h, c.0.covers))
            (omega (arith, c.0.within)) in
        (
          got.after ∷ ts,
          got.ran ts,
          subst (λ x. Covers x (got.after ∷ ts)) (some_injective (simp h at e)) (one, c.1),
        )
    | inr h ↦ elim (Option-cases (take_port sched insn.fu ss)) [
      | inl f ↦ absurd (none-ne-some (simp (h, f) at e))
      | inr (rest, f) ↦
          let went : s ∷ rest ≡ ss' = some_injective (simp (h, f) at e) in
          elim (Bool-cases (t.support insn.fu && not (sched.busy t.queue))) [
            | inl k ↦
                let same : t.support insn.fu ≡ true = ground (arith, k) in
                let free = idle-room t.queue (ground (arith, k)) in
                let got = enter-Entered insn t same free in
                let idle = no_port s insn.fu (c.0.same_support insn.fu ∙ same) h c.0.within in
                let one =
                  enter-CoversOne insn s t s.avail_port got c.0 (omega (arith, free, idle))
                    c.0.within in
                (
                  got.after ∷ ts,
                  got.ran ts,
                  subst (λ x. Covers x (got.after ∷ ts)) went
                      (one, take_port-Covers insn.fu ss ts rest f c.1),
                )
            | inr k ↦
                let (ts', ran, covers) = enter-Covers insn ss ts rest f c.1 in
                (
                  t ∷ ts',
                  enter-skip insn t ts ts' k ran,
                  subst (λ x. Covers x (t ∷ ts')) went (c.0, covers),
                )
          ]
    ]
  ]
