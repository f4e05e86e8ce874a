-- ===== src/Registers/Supply.antt =====
-- Which registers a reset free list holds, and that handing out and taking back keep the supply.
use riscv_cmodel_h.Base.{
  ℕ, zero, suc, ◌+◌, ◌-◌, ◌^◌, ◌≤◌, ◌<◌, ◌≡◌, ◌==◌, ◌&&◌, leb, ltb, ap, sym, append-nil, ◌%◌, true,
  false, List, [], ◌∷◌, ◌++◌, arith, length, refl, ◌∙◌, append_assoc,
}
use riscv_cmodel_h.Registers.FreeList
use riscv_cmodel_h.Registers.FreeList.{FreeList, contains}

-- The numbers from `start` on, `n` of them.
abbrev count_up : ℕ → ℕ → List ℕ
count_up zero start = []
count_up (suc n) start = start ∷ count_up n (start + 1)

fill-count_up :
    (n start : ℕ) (xs : List ℕ) → 0 < start → FreeList.fill true n start xs ≡ xs ++ count_up n start
unfolding FreeList.fill
fill-count_up zero start xs h = sym (append-nil xs)
fill-count_up (suc n) start xs h =
    let positive : (start == 0) ≡ false = ground arith in
    rw positive (
      fill-count_up n (start + 1) (xs ++ (start ∷ [])) (omega arith)
      ∙ append_assoc xs (start ∷ []) (count_up n (start + 1)))

contains-count_up :
    (r n start : ℕ) → contains r (count_up n start) ≡ (leb start r && ltb r (start + n))
contains-count_up r zero start = ground arith
contains-count_up r (suc n) start = ground (arith, contains-count_up r n (start + 1))

reset-count_up :
    (n : ℕ)
    → 2 ≤ n
    → n < 2 ^ 16
    → (FreeList.reset true (FreeList.construct true n)).freelist ≡ count_up (n - 2) 1
unfolding FreeList.reset FreeList.construct
reset-count_up n h k =
    let e : (n + 2 ^ 16 - 1) % 2 ^ 16 ≡ suc (n - 2) = omega arith in
    rw e (fill-count_up (n - 2) 1 [] (omega arith))

-- A free list built for `n` physical registers with a zero register and reset once holds exactly the
-- registers from 1 to n - 2: register 0 is kept back, and so is the last one, n - 1.
pub contains-reset :
    (n r : ℕ)
    → 2 ≤ n
    → n < 2 ^ 16
    → contains r (FreeList.reset true (FreeList.construct true n)).freelist
      ≡ (leb 1 r && ltb r (n - 1))
contains-reset n r h k = rw (reset-count_up n h k) (contains-count_up r (n - 2) 1 ∙ ground arith)

length-count_up : (n start : ℕ) → length (count_up n start) ≡ n
length-count_up zero start = refl
length-count_up (suc n) start = ap suc (length-count_up n (start + 1))

-- So such a list is never full by its own test, though no register has been handed out.
pub full-reset :
    (n : ℕ)
    → 2 ≤ n
    → n < 2 ^ 16
    → FreeList.full (FreeList.reset true (FreeList.construct true n)) ≡ false
unfolding FreeList.full FreeList.construct FreeList.reset
full-reset n h k = ground (arith, ap length (reset-count_up n h k), length-count_up (n - 2) 1)
