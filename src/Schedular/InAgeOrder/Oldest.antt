-- ===== src/Schedular/InAgeOrder/Oldest.antt =====
-- Proofs about `IssueSelect` of src/Processor/Component/Schedular/ResvrStation/RS_InAgeOrder.hh: which
-- instruction leaves.
use riscv_cmodel_h.Base.{
  ℕ, ◌≡◌, refl, ap, ◌∙◌, Bool, true, false, ◌&&◌, Bool-cases, inl, inr, Option, none, some, List,
  [], ◌∷◌, ◌++◌, get_or, All,
}
use riscv_cmodel_h.Insn.{DynInsn}
use riscv_cmodel_h.Schedular.InAgeOrder.{issue_select, choose_entry, skip, can_go, is_ready}

-- An entry that is passed over: it is empty, or its instruction cannot go.
abbrev pub Waits : (DynInsn → Bool) → List (Option DynInsn) → ℕ → Type 0
Waits accepts queue index = can_go accepts (get_or queue index none) ≡ false

-- The entry that is chosen, with its instruction: every older one waits, and the others are left.
pub record Selected (accepts : DynInsn → Bool) (queue : List (Option DynInsn)) (bust : List ℕ)
    (r : ℕ × DynInsn × List ℕ) : Type 0 where
  pub older : List ℕ
  pub younger : List ℕ
  pub split : bust ≡ older ++ (r.0 ∷ younger)
  pub left : r.2 ≡ older ++ younger
  pub wait : All (Waits accepts queue) older
  pub there : get_or queue r.0 none ≡ some r.1
  pub goes : (is_ready r.1 && accepts r.1) ≡ true

-- Nothing is chosen only where everything waits.
abbrev pub Choice :
    (DynInsn → Bool) → List (Option DynInsn) → List ℕ → Option (ℕ × DynInsn × List ℕ) → Type 0
Choice accepts queue bust none = All (Waits accepts queue) bust
Choice accepts queue bust (some r) = Selected accepts queue bust r

skip-Choice :
    (accepts : DynInsn → Bool) (queue : List (Option DynInsn)) (index : ℕ) (rest : List ℕ)
    (o : Option (ℕ × DynInsn × List ℕ))
    → Waits accepts queue index
    → Choice accepts queue rest o
    → Choice accepts queue (index ∷ rest) (skip index o)
skip-Choice accepts queue index rest none w c = (w, c)
skip-Choice accepts queue index rest (some r) w c = record {
  older = index ∷ c.older;
  younger = c.younger;
  split = ap (λ l. index ∷ l) c.split;
  left = ap (λ l. index ∷ l) c.left;
  wait = (w, c.wait);
  there = c.there;
  goes = c.goes;
}

choose_entry-Choice :
    (accepts : DynInsn → Bool) (queue : List (Option DynInsn)) (index : ℕ) (rest : List ℕ)
    (later : Option (ℕ × DynInsn × List ℕ)) (o : Option DynInsn)
    → get_or queue index none ≡ o
    → Choice accepts queue rest later
    → Choice accepts queue (index ∷ rest) (choose_entry accepts index rest later o)
choose_entry-Choice accepts queue index rest later none e c =
    skip-Choice accepts queue index rest later (ap (can_go accepts) e) c
choose_entry-Choice accepts queue index rest later (some insn) e c =
    elim (Bool-cases (is_ready insn && accepts insn)) [
      | inl go ↦ rw go (record {
        older = [];
        younger = rest;
        split = refl;
        left = refl;
        wait = tt;
        there = e;
        goes = go;
      })
      | inr stay ↦
          rw stay (skip-Choice accepts queue index rest later (ap (can_go accepts) e ∙ stay) c)
    ]

-- The station issues the oldest instruction that can go: the one that is chosen has both operands and a
-- unit that takes it, every older entry is empty or waits for one of these, the other entries stay in
-- their order, and nothing is chosen only where no entry can go.
pub issue_select-Choice :
    (accepts : DynInsn → Bool) (queue : List (Option DynInsn)) (bust : List ℕ)
    → Choice accepts queue bust (issue_select accepts queue bust)
unfolding issue_select
issue_select-Choice accepts queue [] = tt
issue_select-Choice accepts queue (index ∷ rest) =
    choose_entry-Choice accepts queue index rest _ _ refl (issue_select-Choice accepts queue rest)
