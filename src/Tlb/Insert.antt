-- ===== src/Tlb/Insert.antt =====
-- Proofs about src/Processor/Component/TLB.cc: what a lookup gives behind an insertion or a flush.
use riscv_cmodel_h.Base.{
  ℕ, zero, suc, ◌+◌, ◌≤◌, ◌<◌, ◌≡◌, refl, ap, sym, ◌∙◌, true, false, ltb, Bool-cases, Option-cases,
  ◌⊎◌, inl, inr, arith, none, some, List, [], ◌∷◌, ◌++◌, map, length, length-set, get_or,
  get_or-set_self, set, All, none-ne-some, bit_and, bit_or,
}
use mathlib.Core.Path.{subst}
use riscv_cmodel_h.Tlb.{
  Tlb, TlbEntry, construct, hits, find, touch, lookup, least, evict_lru, is_full, place, make_room,
  insert, insert_at, answer, buffer_of, flush_all, invalidate, blank_entry, tlb_look_up, tlb_insert,
  vpn_mask, ppn_mask, off_mask, next_seq, indices,
}
use riscv_cmodel_h.Tlb.Find.{Misses, find-none, find-set, find-invalidate}

-- Every free entry is one of the entries, and there is one.
pub record IsValid (t : Tlb) : Type 0 where
  pub free_in : All (λ i. i < length t.entries) t.free
  pub some_entry : 0 < length t.entries

All-set {ℓ} :
    {A : Type ℓ} (P : A → Type 0) (xs : List A) (i : ℕ) (v : A)
    → All P xs
    → P v
    → All P (set xs i v)
All-set P [] i v a p = tt
All-set P (x ∷ xs) zero v a p = (p, a.1)
All-set P (x ∷ xs) (suc i) v a p = (a.0, All-set P xs i v a.1 p)

All-append {ℓ} :
    {A : Type ℓ} (P : A → Type 0) (xs ys : List A) → All P xs → All P ys → All P (xs ++ ys)
All-append P [] ys a b = b
All-append P (x ∷ xs) ys a b = (a.0, All-append P xs ys a.1 b)

indices_lt : (start n bound : ℕ) → start + n ≤ bound → All (λ i. i < bound) (indices start n)
indices_lt start zero bound h = tt
indices_lt start (suc n) bound h =
    (omega (arith, h), indices_lt (suc start) n bound (omega (arith, h)))

least_lt :
    (k lru seq n : ℕ) (entries : List TlbEntry)
    → lru < n
    → k + length entries ≤ n
    → least k entries lru seq < n
unfolding least
least_lt k lru seq n [] a b = a
least_lt k lru seq n (e ∷ rest) a b = elim (Bool-cases (ltb e.lru_seq seq)) [
  | inl h ↦ rw h (least_lt (suc k) k e.lru_seq n rest (omega (arith, b)) (omega (arith, b)))
  | inr h ↦ rw h (least_lt (suc k) lru seq n rest a (omega (arith, b)))
]

pub construct-IsValid : (entries : List TlbEntry) → 0 < length entries → IsValid (construct entries)
unfolding construct
construct-IsValid entries h = record {
  free_in = indices_lt 0 (length entries) (length entries) (omega arith);
  some_entry = h;
}

length-invalidate : (entries : List TlbEntry) → length (map invalidate entries) ≡ length entries
length-invalidate [] = refl
length-invalidate (e ∷ rest) = ap suc (length-invalidate rest)

-- A buffer with a free entry in which a page is missing.
record HasRoom (vpn asid : ℕ) (t : Tlb) : Type 0 where
  index : ℕ
  rest : List ℕ
  free_lem : t.free ≡ index ∷ rest
  index_in : index < length t.entries
  rest_in : All (λ i. i < length t.entries) rest
  misses : All (Misses vpn asid) t.entries
  some_entry : 0 < length t.entries

invalid-Misses : (vpn asid : ℕ) (e : TlbEntry) → Misses vpn asid (invalidate e)
invalid-Misses vpn asid e = ground arith

has_room :
    (vpn asid : ℕ) (t : Tlb) (index : ℕ) (rest : List ℕ)
    → t.free ≡ index ∷ rest
    → IsValid t
    → All (Misses vpn asid) t.entries
    → HasRoom vpn asid t
has_room vpn asid t index rest e v m =
    let all = subst (All (λ i. i < length t.entries)) e v.free_in in
    record {
      index = index;
      rest = rest;
      free_lem = e;
      index_in = all.0;
      rest_in = all.1;
      misses = m;
      some_entry = v.some_entry;
    }

list_cases : (xs : List ℕ) → (xs ≡ []) ⊎ ((x : ℕ) × (rest : List ℕ) × (xs ≡ x ∷ rest))
list_cases [] = inl refl
list_cases (x ∷ rest) = inr (x, rest, refl)

evict_lru-HasRoom :
    (vpn asid : ℕ) (t : Tlb)
    → t.free ≡ []
    → IsValid t
    → All (Misses vpn asid) t.entries
    → HasRoom vpn asid (evict_lru t)
unfolding evict_lru
evict_lru-HasRoom vpn asid t e v m =
    let lru = least 0 t.entries 0 (get_or t.entries 0 blank_entry).lru_seq in
    let gone = invalidate (get_or t.entries lru blank_entry) in
    let same = length-set t.entries lru gone in
    record {
      index = lru;
      rest = [];
      free_lem = ap (λ l. l ++ (lru ∷ [])) e;
      index_in = rw same (least_lt 0 0 _ (length t.entries) t.entries v.some_entry (omega arith));
      rest_in = tt;
      misses =
          All-set (Misses vpn asid) t.entries lru gone m
            (invalid-Misses vpn asid (get_or t.entries lru blank_entry));
      some_entry = rw same v.some_entry;
    }

make_room-HasRoom :
    (vpn asid : ℕ) (t : Tlb)
    → IsValid t
    → All (Misses vpn asid) t.entries
    → HasRoom vpn asid (make_room t)
unfolding make_room
make_room-HasRoom vpn asid t v m = elim (list_cases t.free) [
  | inl e ↦ let full : is_full t ≡ true = rw e refl in rw full (evict_lru-HasRoom vpn asid t e v m)
  | inr h ↦
      let free : is_full t ≡ false = rw h.2 refl in rw free (has_room vpn asid t h.0 h.1 h.2 v m)
]

-- Where the page is missing, `TLB_Insert` returns, the buffer stays in order, and an address of the page
-- has the physical address that was inserted.
pub record Translates (t : Tlb) (vaddr asid paddr : ℕ) : Type 0 where
  pub after : Tlb
  pub returns : tlb_insert vaddr asid paddr t ≡ some after
  pub valid : IsValid after
  pub translated :
      (v : ℕ)
      → bit_and v vpn_mask ≡ bit_and vaddr vpn_mask
      → (tlb_look_up v asid after).0 ≡ some (bit_or (bit_and paddr ppn_mask) (bit_and v off_mask))

-- The buffer once an entry stands in its place.
abbrev placed : TlbEntry → ℕ → List ℕ → Tlb → Tlb
placed entry i rest t = record t {
  lru_seq = next_seq t;
  entries = set t.entries i entry;
  free = rest;
}

abbrev new_entry : ℕ → ℕ → ℕ → ℕ → TlbEntry
new_entry vaddr asid paddr seq = record {
  vpn = bit_and vaddr vpn_mask;
  ppn = bit_and paddr ppn_mask;
  asid = asid;
  lru_seq = seq;
  valid = true;
}

-- A lookup gives the page of the entry that is found, and only counts it.
touched_ppn :
    (t : Tlb) (i : ℕ)
    → i < length t.entries
    → (get_or (touch (some i) t).entries i blank_entry).ppn ≡ (get_or t.entries i blank_entry).ppn
unfolding touch
touched_ppn t i h =
    ap (λ e. e.ppn)
      (get_or-set_self t.entries i
        (record (get_or t.entries i blank_entry) { lru_seq = next_seq t }) blank_entry h)

look_up-found :
    (t : Tlb) (v vpn asid i : ℕ)
    → bit_and v vpn_mask ≡ vpn
    → find vpn asid 0 t.entries none ≡ some i
    → i < length t.entries
    → (tlb_look_up v asid t).0
      ≡ some (bit_or (get_or t.entries i blank_entry).ppn (bit_and v off_mask))
unfolding tlb_look_up lookup
look_up-found t v vpn asid i page found h =
    ap
      (λ n.
        answer (bit_and v off_mask)
          (find n asid 0 t.entries none, touch (find n asid 0 t.entries none) t))
      page
    ∙ ap (λ o. answer (bit_and v off_mask) (o, touch o t)) found
    ∙ ap (λ p. some (bit_or p (bit_and v off_mask))) (touched_ppn t i h)

look_up-placed :
    (t : Tlb) (vaddr asid paddr v seq : ℕ)
    → (r : HasRoom (bit_and vaddr vpn_mask) asid t) → bit_and v vpn_mask ≡ bit_and vaddr vpn_mask
    → (tlb_look_up v asid (placed (new_entry vaddr asid paddr seq) r.index r.rest t)).0
      ≡ some (bit_or (bit_and paddr ppn_mask) (bit_and v off_mask))
look_up-placed t vaddr asid paddr v seq r page =
    let entry = new_entry vaddr asid paddr seq in
    let vpn = bit_and vaddr vpn_mask in
    let hit : hits vpn asid entry ≡ true = ground arith in
    let found = find-set vpn asid 0 r.index t.entries entry none r.misses r.index_in hit in
    let inside : r.index < length (set t.entries r.index entry) =
      rw (length-set t.entries r.index entry) r.index_in in
    look_up-found (placed entry r.index r.rest t) v vpn asid r.index page
      (found ∙ ap some (omega arith)) inside
    ∙ ap (λ e. some (bit_or e.ppn (bit_and v off_mask)))
        (get_or-set_self t.entries r.index entry blank_entry r.index_in)

-- A lookup that gives nothing has found nothing.
look_up-absent :
    (t : Tlb) (v asid : ℕ)
    → (tlb_look_up v asid t).0 ≡ none
    → find (bit_and v vpn_mask) asid 0 t.entries none ≡ none
unfolding tlb_look_up lookup
look_up-absent t v asid h = elim (Option-cases (find (bit_and v vpn_mask) asid 0 t.entries none)) [
  | inl e ↦ e
  | inr s ↦ absurd (none-ne-some (sym h ∙ ap (λ o. answer (bit_and v off_mask) (o, touch o t)) s.1))
]

-- A page that is missing and is inserted is there: `TLB_Insert` returns, also where an entry has to be
-- evicted, every free entry is still one of the entries, and every address of the page is translated
-- to the physical page that was inserted with the address's own offset.
pub tlb_insert-Translates :
    (t : Tlb) (vaddr asid paddr : ℕ)
    → IsValid t
    → (tlb_look_up vaddr asid t).0 ≡ none
    → Translates t vaddr asid paddr
unfolding tlb_insert insert insert_at place
tlb_insert-Translates t vaddr asid paddr v missing =
    let vpn = bit_and vaddr vpn_mask in
    let absent = look_up-absent t vaddr asid missing in
    let r = make_room-HasRoom vpn asid t v (find-none vpn asid 0 t.entries absent) in
    let room = make_room t in
    let entry = new_entry vaddr asid paddr (next_seq room) in
    record {
      after = placed entry r.index r.rest room;
      returns =
          ap (λ o. buffer_of (insert_at o vpn (new_entry vaddr asid paddr 0) t)) absent
          ∙ ap (λ l. buffer_of (place vpn (new_entry vaddr asid paddr 0) l room)) r.free_lem;
      valid = record {
        free_in =
            subst (λ n. All (λ i. i < n) r.rest) (sym (length-set room.entries r.index entry))
              r.rest_in;
        some_entry = subst (λ n. 0 < n) (sym (length-set room.entries r.index entry)) r.some_entry;
      };
      translated = λ w page. look_up-placed room vaddr asid paddr w (next_seq room) r page;
    }

-- A page that is there is left as it is, with the physical page it had.
tlb_insert-kept :
    (t : Tlb) (vaddr asid paddr p : ℕ)
    → (tlb_look_up vaddr asid t).0 ≡ some p
    → tlb_insert vaddr asid paddr t ≡ some t
unfolding tlb_look_up lookup tlb_insert insert insert_at
tlb_insert-kept t vaddr asid paddr p h =
    elim (Option-cases (find (bit_and vaddr vpn_mask) asid 0 t.entries none)) [
      | inl e ↦
          absurd
            (none-ne-some (sym (ap (λ o. answer (bit_and vaddr off_mask) (o, touch o t)) e) ∙ h))
      | inr s ↦
          ap
            (λ o. buffer_of (insert_at o (bit_and vaddr vpn_mask) (new_entry vaddr asid paddr 0) t))
            s.1
    ]

-- Behind `flushAll` no address is translated, in any address space, and the buffer stays in order.
flush_all-missing :
    (t : Tlb) (vaddr asid : ℕ)
    → IsValid t
    → ((tlb_look_up vaddr asid (flush_all t)).0 ≡ none) × IsValid (flush_all t)
unfolding tlb_look_up lookup flush_all
flush_all-missing t vaddr asid v = (
  ap (λ o. answer (bit_and vaddr off_mask) (o, touch o (flush_all t)))
      (find-invalidate (bit_and vaddr vpn_mask) asid 0 t.entries),
  record {
    free_in =
        subst (λ n. All (λ i. i < n) (t.free ++ indices 0 (length t.entries)))
          (sym (length-invalidate t.entries))
          (All-append (λ i. i < length t.entries) t.free (indices 0 (length t.entries)) v.free_in
            (indices_lt 0 (length t.entries) (length t.entries) (omega arith)));
    some_entry = subst (λ n. 0 < n) (sym (length-invalidate t.entries)) v.some_entry;
  },
)
