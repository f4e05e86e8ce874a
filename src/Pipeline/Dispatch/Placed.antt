-- ===== src/Pipeline/Dispatch/Placed.antt =====
-- Proofs about src/Processor/Pipeline/Dispatch.cc: which scheduler an instruction goes to, and what that
-- scheduler makes of it.
use riscv_cmodel_h.Base.{
  ℕ, zero, suc, ◌≡◌, ◌⊎◌, refl, true, false, not, ◌&&◌, ◌==◌, ==_iff, Bool-cases, Option-cases, inl,
  inr, arith, some, List, [], ◌∷◌, ◌++◌, some_injective, none-ne-some,
}
use mathlib.Core.Path.{subst}
use riscv_cmodel_h.Insn.{DynInsn}
use riscv_cmodel_h.Schedular.{BaseSchedular, IsSchedular}
use riscv_cmodel_h.Pipeline.Dispatch.{DispSchedular, is_done, enter}

module _ {Q : Type 0} (sched : BaseSchedular Q) where
  -- A scheduler that takes an instruction: it is one for that kind, `Allocate` gives an entry, and the
  -- instruction itself stands at the end of its latch with that entry. The rest stays.
  pub record Places (insn : DynInsn) (s t : DispSchedular Q) : Type 0 where
    pub supported : s.support insn.fu ≡ true
    pub index : ℕ
    pub allocated : sched.allocate s.queue ≡ some (index, t.queue)
    pub latched : t.enque_latch ≡ s.enque_latch ++ ((index, insn) ∷ [])
    pub same_support : t.support ≡ s.support
    pub same_width : t.enque_width ≡ s.enque_width
    pub same_port : t.avail_port ≡ s.avail_port

  -- A scheduler that cannot take it: not one for that kind, or with no entry or no call left.
  abbrev pub CannotTake : DynInsn → DispSchedular Q → Type 0
  CannotTake insn s =
      (s.support insn.fu ≡ false)
      ⊎ ((sched.get_availible_entry_count s.queue ≡ 0) ⊎ (sched.allocated_count s.queue ≡ 0))

  -- The first scheduler that can take the instruction does, and the others stay as they are.
  pub data PlacesFirst (insn : DynInsn)
      : List (DispSchedular Q) → List (DispSchedular Q) → Type 0 where
    here :
        {s t : DispSchedular Q} {ss : List (DispSchedular Q)}
        → Places insn s t
        → PlacesFirst insn (s ∷ ss) (t ∷ ss)
    there :
        {s : DispSchedular Q} {ss ts : List (DispSchedular Q)}
        → CannotTake insn s
        → PlacesFirst insn ss ts
        → PlacesFirst insn (s ∷ ss) (s ∷ ts)

  -- What `DispatchInsn` does with the first `n` instructions, one after the other: those that need no unit
  -- go to no scheduler, each of the others to the first that can take it.
  pub data Placed
      : ℕ → List DynInsn → List (DispSchedular Q) → List (DispSchedular Q) → Type 0 where
    stop : {insns : List DynInsn} {v : List (DispSchedular Q)} → Placed zero insns v v
    needs_none :
        {n : ℕ} {insn : DynInsn} {insns : List DynInsn} {v v' : List (DispSchedular Q)}
        → is_done insn ≡ true
        → Placed n insns v v'
        → Placed (suc n) (insn ∷ insns) v v'
    enters :
        {n : ℕ} {insn : DynInsn} {insns : List DynInsn} {v w v' : List (DispSchedular Q)}
        → is_done insn ≡ false
        → PlacesFirst insn v w
        → Placed n insns w v'
        → Placed (suc n) (insn ∷ insns) v v'

module _ {Q : Type 0} (sched : BaseSchedular Q) (laws : IsSchedular sched) where
  cannot :
      (insn : DynInsn) (s : DispSchedular Q)
      → (s.support insn.fu && not (sched.busy s.queue)) ≡ false
      → CannotTake sched insn s
  cannot insn s h = elim (Bool-cases (s.support insn.fu)) [
    | inr other ↦ inl other
    | inl same ↦ elim (Bool-cases (sched.get_availible_entry_count s.queue == 0)) [
      | inl full ↦ inr (inl ((==_iff _ 0).0 full))
      | inr free ↦ inr (inr (ground (arith, h, same, free, laws.busy_lem s.queue)))
    ]
  ]

  pub enter-PlacesFirst :
      (insn : DynInsn) (ts ts' : List (DispSchedular Q))
      → enter sched insn ts ≡ some ts'
      → PlacesFirst sched insn ts ts'
  unfolding enter
  enter-PlacesFirst insn [] ts' e = absurd (none-ne-some e)
  enter-PlacesFirst insn (t ∷ ts) ts' e =
      elim (Bool-cases (t.support insn.fu && not (sched.busy t.queue))) [
        | inl k ↦
            let idle : sched.busy t.queue ≡ false = ground (arith, k) in
            let got = laws.allocate_lem t.queue idle in
            subst (PlacesFirst sched insn (t ∷ ts)) (some_injective (simp (k, got.ran) at e)) (
              here (record {
                supported = ground (arith, k);
                index = got.index;
                allocated = got.ran;
                latched = refl;
                same_support = refl;
                same_width = refl;
                same_port = refl;
              }))
        | inr k ↦ elim (Option-cases (enter sched insn ts)) [
          | inl f ↦ absurd (none-ne-some (simp (k, f) at e))
          | inr (rest, f) ↦
              subst (PlacesFirst sched insn (t ∷ ts)) (some_injective (simp (k, f) at e))
                (there (cannot insn t k) (enter-PlacesFirst insn ts rest f))
        ]
      ]
