-- ===== src/Tlb/Tests.antt =====
-- The theorems about src/Processor/Component/TLB.cc, on a buffer of two entries.
use riscv_cmodel_h.Base.{◌≡◌, refl, arith, true, Option, none, some, List, [], ◌∷◌, ◌>>=◌}
use riscv_cmodel_h.Tlb.{
  Tlb, TlbEntry, blank_entry, construct, tlb_insert, tlb_look_up, lookup, find, touch, insert,
  insert_at, make_room, evict_lru,
}
use riscv_cmodel_h.Tlb.Insert.{IsValid, construct-IsValid, Translates, tlb_insert-Translates}

abbrev two : List TlbEntry
two = blank_entry ∷ blank_entry ∷ []

two-IsValid : IsValid (construct two)
two-IsValid = construct-IsValid two (omega arith)

missing : (tlb_look_up 0x4000 1 (construct two)).0 ≡ none
unfolding tlb_look_up lookup find construct
missing = refl

tlb_insert-Translates_example : Translates (construct two) 0x4000 1 0x80005000
tlb_insert-Translates_example =
    tlb_insert-Translates (construct two) 0x4000 1 0x80005000 two-IsValid missing

-- The page 4 of address space 1, in the first entry.
unfoldable one_page : Tlb
one_page = record {
  lru_seq = 1;
  entries =
      record { vpn = 0x4000; ppn = 0x80005000; asid = 1; lru_seq = 1; valid = true }
      ∷ blank_entry
      ∷ [];
  free = 1 ∷ [];
}

present : (tlb_look_up 0x4ABC 1 one_page).0 ≡ some 0x80005ABC
unfolding tlb_look_up lookup find touch one_page
present = refl

one_page-IsValid : IsValid one_page
unfolding one_page
one_page-IsValid = record { free_in = (omega arith, tt); some_entry = omega arith }

-- With no free entry the one that was used least recently goes: page 4, here.
unfoldable after_two : Option Tlb
unfolding tlb_insert insert make_room evict_lru find one_page
after_two = tlb_insert 0x5000 1 0x1000 one_page >>= tlb_insert 0x6000 1 0x2000

evicted : (after_two >>= λ t. (tlb_look_up 0x4000 1 t).0) ≡ none
unfolding after_two tlb_look_up lookup touch insert_at
evicted = refl

inserted : (after_two >>= λ t. (tlb_look_up 0x6000 1 t).0) ≡ some 0x2000
unfolding after_two tlb_look_up lookup touch insert_at
inserted = refl
