-- ===== src/Tlb/Find.antt =====
-- Proofs about src/Processor/Component/TLB.cc: what `lookup` finds.
use riscv_cmodel_h.Base.{
  ℕ, zero, suc, ◌+◌, ◌<◌, ◌≡◌, refl, ap, sym, ◌∙◌, true, false, Bool-cases, inl, inr, arith, Option,
  none, some, List, [], ◌∷◌, map, length, set, All, none-ne-some,
}
use riscv_cmodel_h.Tlb.{TlbEntry, hits, find, invalidate}

-- No entry hits.
abbrev pub Misses : ℕ → ℕ → TlbEntry → Type 0
Misses vpn asid e = hits vpn asid e ≡ false

find-Misses :
    (vpn asid k : ℕ) (entries : List TlbEntry) (found : Option ℕ)
    → All (Misses vpn asid) entries
    → find vpn asid k entries found ≡ found
unfolding find
find-Misses vpn asid k [] found v = refl
find-Misses vpn asid k (e ∷ rest) found v = rw v.0 (find-Misses vpn asid (suc k) rest found v.1)

-- What is found is kept or later.
find-some :
    (vpn asid k i : ℕ) (entries : List TlbEntry)
    → (j : ℕ) × (find vpn asid k entries (some i) ≡ some j)
unfolding find
find-some vpn asid k i [] = (i, refl)
find-some vpn asid k i (e ∷ rest) = elim (Bool-cases (hits vpn asid e)) [
  | inl h ↦ rw h (find-some vpn asid (suc k) k rest)
  | inr h ↦ rw h (find-some vpn asid (suc k) i rest)
]

-- Nothing is found only where no entry hits.
pub find-none :
    (vpn asid k : ℕ) (entries : List TlbEntry)
    → find vpn asid k entries none ≡ none
    → All (Misses vpn asid) entries
unfolding find
find-none vpn asid k [] h = tt
find-none vpn asid k (e ∷ rest) h = elim (Bool-cases (hits vpn asid e)) [
  | inl hit ↦
      let s = find-some vpn asid (suc k) k rest in absurd (none-ne-some (sym (rw hit at h) ∙ s.1))
  | inr miss ↦ (miss, find-none vpn asid (suc k) rest (rw miss at h))
]

-- An entry that hits among others that do not is found.
pub find-set :
    (vpn asid k i : ℕ) (entries : List TlbEntry) (e : TlbEntry) (found : Option ℕ)
    → All (Misses vpn asid) entries
    → i < length entries
    → hits vpn asid e ≡ true
    → find vpn asid k (set entries i e) found ≡ some (k + i)
unfolding find
find-set vpn asid k i [] e found v lt h = absurd (omega (arith, lt))
find-set vpn asid k zero (x ∷ rest) e found v lt h =
    rw (h, find) (find-Misses vpn asid (suc k) rest (some k) v.1 ∙ ap some (omega arith))
find-set vpn asid k (suc i) (x ∷ rest) e found v lt h =
    rw (v.0, find)
      (find-set vpn asid (suc k) i rest e found v.1 (omega (arith, lt)) h ∙ ap some (omega arith))

invalidate-Misses :
    (vpn asid : ℕ) (entries : List TlbEntry) → All (Misses vpn asid) (map invalidate entries)
invalidate-Misses vpn asid [] = tt
invalidate-Misses vpn asid (e ∷ rest) = (ground arith, invalidate-Misses vpn asid rest)

pub find-invalidate :
    (vpn asid k : ℕ) (entries : List TlbEntry)
    → find vpn asid k (map invalidate entries) none ≡ none
find-invalidate vpn asid k entries =
    find-Misses vpn asid k (map invalidate entries) none (invalidate-Misses vpn asid entries)
