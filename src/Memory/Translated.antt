-- ===== src/Memory/Translated.antt =====
-- What an address of machine/translate.cc stands for, and when Translate finds one.
use os_project2_nach_os.Base.{
  ℕ, zero, suc, ◌+◌, ◌*◌, ◌/◌, ◌%◌, ◌≤◌, ◌<◌, ◌≡◌, refl, sym, ap, ◌∙◌, Bool, true, false, ◌&&◌,
  ◌||◌, Bool-cases, inl, inr, Option, none, some, List, length, ok, get_elem?-some, ◌>>=◌,
  >>=-eq-ok, leb, ◌==◌, arith,
}
use os_project2_nach_os.Memory.Entries.{lookup-touch}
use os_project2_nach_os.Memory.{
  TranslationEntry, Machine, page_fault_exception, address_error_exception, read_only_exception,
  bus_error_exception, search_tlb, index_table, tlb_size, Lookup, missing, entry_at, lookup, touch,
  store_entry, Translation, refused, mapped, misaligned, phys_addr, use_entry, translate, page_size,
  num_phys_pages, memory_size,
}

-- The entry i is the page's, and lets the access through to the physical address `at`.
pub record Translates (m : Machine) (addr size : ℕ) (writing : Bool) (i : ℕ) (e : TranslationEntry)
    (at : ℕ) : Type 0 where
  pub aligned : misaligned addr size ≡ false
  pub found : lookup m.tlb m.page_table m.page_table_size (addr / page_size) ≡ ok (entry_at i e)
  pub permitted : (e.read_only && writing) ≡ false
  pub frame : e.physical_page < num_phys_pages
  pub address : at ≡ e.physical_page * page_size + addr % page_size
  pub within : at + size ≤ memory_size

use_entry-mapped :
    (m : Machine) (addr size : ℕ) (w : Bool) (l : Lookup) {at : ℕ} {m' : Machine}
    → use_entry m addr size w l ≡ ok (mapped at m')
    → (i : ℕ) × (e : TranslationEntry) × (l ≡ entry_at i e)
      × ((e.read_only && w) ≡ false)
      × (e.physical_page < num_phys_pages)
      × (at ≡ phys_addr e addr)
      × (at + size ≤ memory_size)
      × (m' ≡ store_entry m i (touch w e))
unfolding use_entry
use_entry-mapped m addr size w (missing which) h = cc
use_entry-mapped m addr size w (entry_at i e) h =
    (i, e, refl, ground arith, ground arith, ground arith, ground arith, ground arith)

lookup_of_entry :
    (m : Machine) (addr size : ℕ) (w : Bool) {at : ℕ} {m' : Machine}
    → (lookup m.tlb m.page_table m.page_table_size (addr / page_size) >>= use_entry m addr size w)
      ≡ ok (mapped at m')
    → misaligned addr size ≡ false
    → (i : ℕ) × (e : TranslationEntry) × Translates m addr size w i e at
      × (m' ≡ store_entry m i (touch w e))
lookup_of_entry m addr size w h aligned =
    let (l, looked, used_up) =
      >>=-eq-ok (lookup m.tlb m.page_table m.page_table_size (addr / page_size))
        (use_entry m addr size w) h in
    let (i, e, is_at, permitted, frame, address, within, after) =
      use_entry-mapped m addr size w l used_up in
    (
      i,
      e,
      record {
        aligned = aligned;
        found = looked ∙ ap ok is_at;
        permitted = permitted;
        frame = frame;
        address = address;
        within = within;
      },
      after,
    )

pub translate-Translates :
    (m : Machine) (addr size : ℕ) (w : Bool) {at : ℕ} {m' : Machine}
    → translate m addr size w ≡ ok (mapped at m')
    → (i : ℕ) × (e : TranslationEntry) × Translates m addr size w i e at
      × (m' ≡ store_entry m i (touch w e))
unfolding translate
translate-Translates m addr size w h = elim (Bool-cases (misaligned addr size)) [
  | inl bad ↦ ground (arith, bad)
  | inr good ↦ lookup_of_entry m addr size w (sym (rw good) ∙ h) good
]

use_entry-Translates :
    (m : Machine) (addr size : ℕ) (w : Bool) {i : ℕ} {e : TranslationEntry} {at : ℕ}
    → Translates m addr size w i e at
    → use_entry m addr size w (entry_at i e) ≡ ok (mapped at (store_entry m i (touch w e)))
unfolding use_entry
use_entry-Translates m addr size w t = ground (arith, t.permitted, t.frame, t.address, t.within)

pub Translates-translate :
    (m : Machine) (addr size : ℕ) (w : Bool) {i : ℕ} {e : TranslationEntry} {at : ℕ}
    → Translates m addr size w i e at
    → translate m addr size w ≡ ok (mapped at (store_entry m i (touch w e)))
unfolding translate
Translates-translate m addr size w t =
    rw (t.aligned, t.found) (use_entry-Translates m addr size w t)

-- The same address read after it was written, or after memory changed.
pub Translates-again :
    (m : Machine) (memory : List ℕ) (addr size : ℕ) (w : Bool) {i : ℕ} {e : TranslationEntry}
    {at : ℕ}
    → Translates m addr size w i e at
    → Translates
        (record (store_entry m i (touch w e)) { main_memory = memory })
        addr
        size
        false
        i
        (touch w e)
        at
Translates-again m memory addr size w t = record {
  aligned = t.aligned;
  found = lookup-touch m.tlb m.page_table m.page_table_size (addr / page_size) w t.found;
  permitted = ground arith;
  frame = t.frame;
  address = t.address;
  within = t.within;
}

-- An aligned access of 1, 2 or 4 bytes does not reach over the end of a page.
misaligned-within :
    (addr size : ℕ)
    → (size == 1 || size == 2 || size == 4) ≡ true
    → misaligned addr size ≡ false
    → addr % page_size + size ≤ page_size
misaligned-within addr size access aligned = ground arith

-- The one table there is holds all the entries that the code may index.
pub data HasTable
    : Option (List TranslationEntry) → Option (List TranslationEntry) → ℕ → Type 0 where
  has_tlb :
      (t : List TranslationEntry) (size : ℕ) → tlb_size ≤ length t → HasTable (some t) none size
  has_page_table :
      (p : List TranslationEntry) (size : ℕ) → size ≤ length p → HasTable none (some p) size

search_tlb_total :
    (rounds from : ℕ) (t : List TranslationEntry) (vpn : ℕ)
    → from + rounds ≤ length t
    → (l : Lookup) × (search_tlb rounds from t vpn ≡ ok l)
unfolding search_tlb
search_tlb_total zero from t vpn h = (missing page_fault_exception, refl)
search_tlb_total (suc rounds) from t vpn h =
    let (e, there) = get_elem?-some t from (omega arith) in
    elim (Bool-cases (e.valid && (e.virtual_page == vpn))) [
      | inl matching ↦ (entry_at from e, rw (there, matching))
      | inr other ↦
          let (l, later) = search_tlb_total rounds (from + 1) t vpn (omega arith) in
          (l, rw (there, other) later)
    ]

index_table_total :
    (p : List TranslationEntry) (size vpn : ℕ)
    → size ≤ length p
    → (l : Lookup) × (index_table p size vpn ≡ ok l)
index_table_total p size vpn h = elim (Bool-cases (leb size vpn)) [
  | inl beyond ↦ (missing address_error_exception, rw beyond)
  | inr inside ↦
      let (e, there) = get_elem?-some p vpn (ground (arith, inside)) in
      elim (Bool-cases e.valid) [
        | inl valid ↦ (entry_at vpn e, rw (inside, there, valid))
        | inr invalid ↦ (missing page_fault_exception, rw (inside, there, invalid))
      ]
]

lookup_total :
    {tlb page_table : Option (List TranslationEntry)} {size : ℕ} (vpn : ℕ)
    → HasTable tlb page_table size
    → (l : Lookup) × (lookup tlb page_table size vpn ≡ ok l)
lookup_total vpn (has_tlb t size h) = search_tlb_total tlb_size 0 t vpn h
lookup_total vpn (has_page_table p size h) = index_table_total p size vpn h

use_entry_total :
    (m : Machine) (addr size : ℕ) (w : Bool) (l : Lookup)
    → addr % page_size + size ≤ page_size
    → (t : Translation) × (use_entry m addr size w l ≡ ok t)
unfolding use_entry
use_entry_total m addr size w (missing which) h = (refused which, refl)
use_entry_total m addr size w (entry_at i e) h = elim (Bool-cases (e.read_only && w)) [
  | inl denied ↦ (refused read_only_exception, rw denied)
  | inr permitted ↦ elim (Bool-cases (leb num_phys_pages e.physical_page)) [
    | inl wrong ↦ (refused bus_error_exception, rw (permitted, wrong))
    | inr frame ↦
        let within : leb (phys_addr e addr + size) memory_size ≡ true = ground (arith, frame) in
        (mapped (phys_addr e addr) (store_entry m i (touch w e)), rw (permitted, frame, within))
  ]
]

-- With one table, and for an access of 1, 2 or 4 bytes, Translate returns an exception or an
-- address: none of its ASSERTs fails, and no table is read outside its bounds.
pub translate_total :
    (m : Machine) (addr size : ℕ) (w : Bool)
    → HasTable m.tlb m.page_table m.page_table_size
    → (size == 1 || size == 2 || size == 4) ≡ true
    → (t : Translation) × (translate m addr size w ≡ ok t)
unfolding translate
translate_total m addr size w table access = elim (Bool-cases (misaligned addr size)) [
  | inl bad ↦ (refused address_error_exception, rw bad)
  | inr good ↦
      let (l, found) = lookup_total (addr / page_size) table in
      let (t, done) = use_entry_total m addr size w l (misaligned-within addr size access good) in
      (t, rw (good, found) done)
]
