-- ===== src/Pipeline/Dispatch/Total.antt =====
-- Proofs about src/Processor/Pipeline/Dispatch.cc: what `TryDispatch` counts, `DispatchInsn` can
-- dispatch.
use riscv_cmodel_h.Base.{
  ℕ, zero, suc, ◌≤◌, ◌≡◌, refl, Bool, true, false, ◌&&◌, if◌then◌else◌, Bool-cases, Option-cases,
  inl, inr, arith, some, List, [], ◌∷◌, map, All,
}
use riscv_cmodel_h.Insn.{DynInsn, state_commit}
use riscv_cmodel_h.Schedular.{BaseSchedular, IsSchedular}
use riscv_cmodel_h.Pipeline.Dispatch.{
  DispSchedular, take_port, try_dispatch_from, try_dispatch, is_done, is_nop, dispatch_one,
  dispatch_insn, flush_status,
}
use riscv_cmodel_h.Pipeline.Dispatch.Placed.{
  PlacesFirst, enter-PlacesFirst, Placed, stop, needs_none, enters,
}
use riscv_cmodel_h.Pipeline.Dispatch.Ports.{Covers, take_port-Covers, enter-Covers}

-- An instruction behind `DispatchInsn`, and the package with the first ones dispatched.
abbrev pub handed_on : DynInsn → DynInsn
handed_on insn = if is_done insn then record insn { state = state_commit } else insn

abbrev pub first_handed_on : ℕ → List DynInsn → List DynInsn
first_handed_on zero insns = insns
first_handed_on (suc n) [] = []
first_handed_on (suc n) (insn ∷ insns) = handed_on insn ∷ first_handed_on n insns

module _ {Q : Type 0} (sched : BaseSchedular Q) where
  -- What `DispatchInsn` makes of the first `n` instructions.
  pub record Dispatches (n : ℕ) (insns : List DynInsn) (ts : List (DispSchedular Q)) : Type 0 where
    pub after : List (DispSchedular Q)
    pub ran : dispatch_insn sched n insns ts ≡ some (first_handed_on n insns, after)
    pub placed : Placed sched n insns ts after

module _ {Q : Type 0} (sched : BaseSchedular Q) (laws : IsSchedular sched) where
  -- Where an instruction goes.
  data Goes (insn : DynInsn) (v : List (DispSchedular Q)) : List (DispSchedular Q) → Type 0 where
    nowhere : is_done insn ≡ true → Goes insn v v
    somewhere :
        {w : List (DispSchedular Q)}
        → is_done insn ≡ false
        → PlacesFirst sched insn v w
        → Goes insn v w

  record Step (insn : DynInsn) (ss' ts : List (DispSchedular Q)) : Type 0 where
    after : List (DispSchedular Q)
    ran : dispatch_one sched insn ts ≡ some (handed_on insn, after)
    covers : Covers sched laws ss' after
    goes : Goes insn ts after

  done-Step :
      (insn : DynInsn) (ss ts : List (DispSchedular Q))
      → is_done insn ≡ true
      → Covers sched laws ss ts
      → Step insn ss ts
  unfolding dispatch_one
  done-Step insn ss ts h c = record { after = ts; ran = simp h refl; covers = c; goes = nowhere h }

  port-Step :
      (insn : DynInsn) (ss ts ss' : List (DispSchedular Q))
      → take_port sched insn.fu ss ≡ some ss'
      → Covers sched laws ss ts
      → Step insn ss' ts
  unfolding dispatch_one
  port-Step insn ss ts ss' e c = elim (Bool-cases (is_done insn)) [
    | inl h ↦ done-Step insn ss' ts h (take_port-Covers sched laws insn.fu ss ts ss' e c)
    | inr h ↦
        let (ts', ran, covers) = enter-Covers sched laws insn ss ts ss' e c in
        record {
          after = ts';
          ran = simp (h, ran) refl;
          covers = covers;
          goes = somewhere h (enter-PlacesFirst sched laws insn ts ts' ran);
        }
  ]

  none_left :
      (n : ℕ) (insns : List DynInsn) (ts : List (DispSchedular Q))
      → n ≤ 0
      → Dispatches sched n insns ts
  unfolding dispatch_insn
  none_left zero insns ts h = record { after = ts; ran = refl; placed = stop }
  none_left (suc n) insns ts h = absurd (omega (arith, h))

  goes-Placed :
      {n : ℕ} {insn : DynInsn} {insns : List DynInsn} {v w v' : List (DispSchedular Q)}
      → Goes insn v w
      → Placed sched n insns w v'
      → Placed sched (suc n) (insn ∷ insns) v v'
  goes-Placed (nowhere h) rest = needs_none h rest
  goes-Placed (somewhere h p) rest = enters h p rest

  one_more :
      (n : ℕ) (insn : DynInsn) (insns : List DynInsn) (ss' ts : List (DispSchedular Q))
      → (first : Step insn ss' ts) → Dispatches sched n insns first.after
      → Dispatches sched (suc n) (insn ∷ insns) ts
  unfolding dispatch_insn
  one_more n insn insns ss' ts first rest = record {
    after = rest.after;
    ran = simp (first.ran, rest.ran) refl;
    placed = goes-Placed first.goes rest.placed;
  }

  dispatch_from :
      (check : Bool) (n : ℕ) (insns : List DynInsn) (ss ts : List (DispSchedular Q))
      → Covers sched laws ss ts
      → n ≤ try_dispatch_from sched check insns ss
      → Dispatches sched n insns ts
  unfolding try_dispatch_from
  dispatch_from check zero insns ss ts c h = none_left zero insns ts (omega arith)
  dispatch_from check (suc n) [] ss ts c h = absurd (omega (arith, h))
  dispatch_from check (suc n) (insn ∷ insns) ss ts c h = elim (Bool-cases insn.excp.valid) [
    | inl e ↦
        let first = done-Step insn ss ts (ground (arith, e)) c in
        one_more n insn insns ss ts first
          (none_left n insns first.after (omega (arith, simp e at h)))
    | inr e ↦ elim (Bool-cases (is_nop insn)) [
      | inl nop ↦
          let first = done-Step insn ss ts (ground (arith, nop)) c in
          one_more n insn insns ss ts first (
            dispatch_from check n insns ss first.after first.covers
              (omega (arith, simp (e, nop) at h)))
      | inr other ↦ elim (Option-cases (take_port sched insn.fu ss)) [
        | inl f ↦ absurd (omega (arith, simp (e, other, f) at h))
        | inr (ss', f) ↦
            let first = port-Step insn ss ts ss' f c in
            one_more n insn insns ss' ts first
              (elim (Bool-cases (check && insn.control_flow_insn)) [
                | inl k ↦ none_left n insns first.after (omega (arith, simp (e, other, f, k) at h))
                | inr k ↦
                    dispatch_from check n insns ss' first.after first.covers
                      (omega (arith, simp (e, other, f, k) at h))
              ])
      ]
    ]
  ]

  -- No instruction has come in this cycle.
  abbrev pub IsFresh : DispSchedular Q → Type 0
  IsFresh s = sched.allocated_count s.queue ≡ s.enque_width

  flush_status-Covers :
      (v : List (DispSchedular Q))
      → All IsFresh v
      → Covers sched laws (map (flush_status sched) v) v
  unfolding flush_status
  flush_status-Covers [] fresh = tt
  flush_status-Covers (s ∷ v) fresh = (
    record {
      same_support = λ fu. refl;
      within = omega (arith, fresh.0);
      covers = omega (arith, fresh.0);
    },
    flush_status-Covers v fresh.1,
  )

  -- At the start of a cycle, with schedulers that are busy exactly if no entry or no call is left,
  -- `DispatchInsn` never fails its assertion on as many instructions as `TryDispatch` counts, or fewer:
  -- those that need no unit are ready to commit, and each of the others goes, unchanged, to the latch of
  -- the first scheduler that can take its kind, with the entry that `Allocate` gives there, while the
  -- other schedulers stay as they are.
  pub dispatch_insn-Dispatches :
      (check : Bool) (n : ℕ) (insns : List DynInsn) (v : List (DispSchedular Q))
      → All IsFresh v
      → n ≤ try_dispatch sched check insns v
      → Dispatches sched n insns v
  unfolding try_dispatch
  dispatch_insn-Dispatches check n insns v fresh h =
      dispatch_from check n insns (map (flush_status sched) v) v (flush_status-Covers v fresh) h
