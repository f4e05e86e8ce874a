-- ===== src/Tlb.antt =====
-- src/Processor/Component/TLB.hh and TLB.cc: the translation buffer. A pointer to an entry is its
-- index; `none` is the front of an empty list. The constructor leaves `valid` of the entries unset,
-- so the entries it starts with are an argument.
pub mod Find
pub mod Insert
mod Tests
use riscv_cmodel_h.Base.{
  ℕ, zero, suc, ◌+◌, Bool, true, false, ◌==◌, ◌&&◌, ltb, if◌then◌else◌, Option, none, some, List,
  [], ◌∷◌, ◌++◌, map, length, get_or, set, bit_and, bit_or, u64,
}

-- `TLBEntry`
pub record TlbEntry : Type 0 where
  pub vpn : ℕ
  pub ppn : ℕ
  pub asid : ℕ
  pub lru_seq : ℕ
  pub valid : Bool

-- `BaseTLB`
pub record Tlb : Type 0 where
  pub lru_seq : ℕ
  pub entries : List TlbEntry
  pub free : List ℕ

abbrev pub vpn_mask : ℕ
vpn_mask = 0x007ffffff000

abbrev pub ppn_mask : ℕ
ppn_mask = 0x00fffffffffff000

abbrev pub off_mask : ℕ
off_mask = 0x0fff

-- The default constructor; `asid` and `valid` are what the memory held.
abbrev pub blank_entry : TlbEntry
blank_entry = record { vpn = 0; ppn = 0; asid = 0; lru_seq = 0; valid = false }

abbrev pub indices : ℕ → ℕ → List ℕ
indices start zero = []
indices start (suc n) = start ∷ indices (suc start) n

-- `BaseTLB::BaseTLB`: every entry is free.
unfoldable pub construct : List TlbEntry → Tlb
construct entries = record { lru_seq = 0; entries = entries; free = indices 0 (length entries) }

-- `nextSeq`
abbrev pub next_seq : Tlb → ℕ
next_seq t = u64 (t.lru_seq + 1)

abbrev pub hits : ℕ → ℕ → TlbEntry → Bool
hits vpn asid e = (e.vpn == vpn) && (e.asid == asid) && e.valid

-- The loop of `lookup`, from the entry `k` on: the last that hits.
unfoldable pub find : ℕ → ℕ → ℕ → List TlbEntry → Option ℕ → Option ℕ
find vpn asid k [] found = found
find vpn asid k (e ∷ rest) found =
    find vpn asid (suc k) rest (if hits vpn asid e then some k else found)

-- What a lookup that counts leaves at the entry that hits.
unfoldable pub touch : Option ℕ → Tlb → Tlb
touch none t = t
touch (some i) t = record t {
  lru_seq = next_seq t;
  entries = set t.entries i (record (get_or t.entries i blank_entry) { lru_seq = next_seq t });
}

-- `lookup`, by the number of the entry.
unfoldable pub lookup : ℕ → ℕ → Bool → Tlb → Option ℕ × Tlb
unfolding find touch
lookup vpn asid hidden t =
    let entry = find vpn asid 0 t.entries none in (entry, if hidden then t else touch entry t)

-- `remove`
unfoldable pub remove : ℕ → Tlb → Tlb
remove i t = record t {
  entries = set t.entries i (record (get_or t.entries i blank_entry) { valid = false });
  free = t.free ++ (i ∷ []);
}

-- The loop of `evictLRU` from the entry `k` on: the least `lruSeq`, the first of equals.
unfoldable pub least : ℕ → List TlbEntry → ℕ → ℕ → ℕ
least k [] lru seq = lru
least k (e ∷ rest) lru seq =
    if ltb e.lru_seq seq then least (suc k) rest k e.lru_seq else least (suc k) rest lru seq

-- `evictLRU`
unfoldable pub evict_lru : Tlb → Tlb
unfolding remove least
evict_lru t = remove (least 0 t.entries 0 (get_or t.entries 0 blank_entry).lru_seq) t

abbrev pub is_full : Tlb → Bool
is_full t = elim t.free [ [] ↦ true | i ∷ rest ↦ false ]

-- The entry is written into the first free place.
unfoldable pub place : ℕ → TlbEntry → List ℕ → Tlb → Option (ℕ × Tlb)
place vpn entry [] t = none
place vpn entry (i ∷ rest) t = some (
  i,
  record t {
    lru_seq = next_seq t;
    entries = set t.entries i (record entry { lru_seq = next_seq t; vpn = vpn });
    free = rest;
  },
)

-- Room is made where there is none.
unfoldable pub make_room : Tlb → Tlb
make_room t = if is_full t then evict_lru t else t

-- A page that is there already is left as it is.
unfoldable pub insert_at : Option ℕ → ℕ → TlbEntry → Tlb → Option (ℕ × Tlb)
unfolding place make_room
insert_at (some i) vpn entry t = some (i, t)
insert_at none vpn entry t = place vpn entry (make_room t).free (make_room t)

-- `insert`, by the number of the entry.
unfoldable pub insert : ℕ → TlbEntry → Tlb → Option (ℕ × Tlb)
insert vpn entry t = insert_at (find vpn entry.asid 0 t.entries none) vpn entry t

abbrev pub invalidate : TlbEntry → TlbEntry
invalidate e = record e { valid = false }

-- `flushAll`: every entry joins the free list, also one that stands there already.
unfoldable pub flush_all : Tlb → Tlb
flush_all t = record t {
  entries = map invalidate t.entries;
  free = t.free ++ indices 0 (length t.entries);
}

-- The physical address of what a lookup gave.
unfoldable pub answer : ℕ → Option ℕ × Tlb → Option ℕ
answer offset (none, t) = none
answer offset (some i, t) = some (bit_or (get_or t.entries i blank_entry).ppn offset)

-- `TLB_LookUp`: the physical address if the page is there.
unfoldable pub tlb_look_up : ℕ → ℕ → Tlb → Option ℕ × Tlb
unfolding answer
tlb_look_up vaddr asid t =
    let r = lookup (bit_and vaddr vpn_mask) asid false t in (answer (bit_and vaddr off_mask) r, r.1)

-- The buffer of an insertion.
unfoldable pub buffer_of : Option (ℕ × Tlb) → Option Tlb
buffer_of none = none
buffer_of (some r) = some r.1

-- `TLB_Insert`
unfoldable pub tlb_insert : ℕ → ℕ → ℕ → Tlb → Option Tlb
unfolding buffer_of
tlb_insert vaddr asid paddr t = buffer_of (
    insert (bit_and vaddr vpn_mask)
      (record {
        vpn = bit_and vaddr vpn_mask;
        ppn = bit_and paddr ppn_mask;
        asid = asid;
        lru_seq = 0;
        valid = true;
      })
      t)
