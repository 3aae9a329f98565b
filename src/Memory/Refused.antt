-- ===== src/Memory/Refused.antt =====
-- An access that is refused changes no memory and no table, whatever the system calls do.
use os_project2_nach_os.Base.{
  ℕ, zero, suc, ◌+◌, ◌/◌, ◌≡◌, ◌⊎◌, refl, sym, ap, ◌∙◌, Bool, true, false, ◌&&◌, Bool-cases,
  Option-cases, inl, inr, Option, none, some, List, Result, ok, get_elem?, >>=-eq-ok, ◌==◌, arith,
}
use os_project2_nach_os.Memory.Entries.{search_tlb-later, search_tlb-outside}
use os_project2_nach_os.Memory.{
  ExceptionType, page_fault_exception, address_error_exception, read_only_exception,
  bus_error_exception, TranslationEntry, Machine, user_mode, Lookup, missing, entry_at, search_tlb,
  index_table, lookup, tlb_size, Translation, refused, mapped, misaligned, use_entry, translate,
  page_size,
}
use os_project2_nach_os.Memory.Access.{
  store, delayed_load, raise_exception, write_mem, finish_write,
}

-- The exceptions that an access of memory raises.
pub data AccessException : ExceptionType → Type 0 where
  page_fault : AccessException page_fault_exception
  address_error : AccessException address_error_exception
  read_only : AccessException read_only_exception
  bus_error : AccessException bus_error_exception

pub record SameMemory (m m' : Machine) : Type 0 where
  pub memory : m'.main_memory ≡ m.main_memory
  pub same_tlb : m'.tlb ≡ m.tlb
  pub same_table : m'.page_table ≡ m.page_table

search_tlb-missing :
    (rounds from : ℕ) (t : List TranslationEntry) (vpn : ℕ) {which : ExceptionType}
    → search_tlb rounds from t vpn ≡ ok (missing which)
    → page_fault_exception ≡ which
unfolding search_tlb
search_tlb-missing zero from t vpn h = cc
search_tlb-missing (suc rounds) from t vpn h = elim (Option-cases (get_elem? t from)) [
  | inl outside ↦ absurd (search_tlb-outside rounds from t vpn outside h)
  | inr (e, there) ↦ elim (Bool-cases (e.valid && (e.virtual_page == vpn))) [
    | inl matching ↦ ground (arith, there, matching)
    | inr other ↦
        search_tlb-missing rounds (from + 1) t vpn
          (search_tlb-later rounds from t vpn there other h)
  ]
]

index_table-missing :
    (p : List TranslationEntry) (size vpn : ℕ) {which : ExceptionType}
    → index_table p size vpn ≡ ok (missing which)
    → (page_fault_exception ≡ which) ⊎ (address_error_exception ≡ which)
index_table-missing p size vpn h = elim (Option-cases (get_elem? p vpn)) [
  | inl outside ↦ ground (arith, outside)
  | inr (e, there) ↦ ground (arith, there)
]

lookup-missing :
    (tlb page_table : Option (List TranslationEntry)) (size vpn : ℕ) {which : ExceptionType}
    → lookup tlb page_table size vpn ≡ ok (missing which)
    → (page_fault_exception ≡ which) ⊎ (address_error_exception ≡ which)
lookup-missing none none size vpn h = cc
lookup-missing (some t) (some p) size vpn h = cc
lookup-missing none (some p) size vpn h = index_table-missing p size vpn h
lookup-missing (some t) none size vpn h = inl (search_tlb-missing tlb_size 0 t vpn h)

AccessException-of :
    {which : ExceptionType}
    → (page_fault_exception ≡ which) ⊎ (address_error_exception ≡ which)
    → AccessException which
AccessException-of (inl q) = rw (← q) page_fault
AccessException-of (inr q) = rw (← q) address_error

use_entry-refused :
    (m : Machine) (addr size : ℕ) (w : Bool) (i : ℕ) (e : TranslationEntry) {which : ExceptionType}
    → use_entry m addr size w (entry_at i e) ≡ ok (refused which)
    → (read_only_exception ≡ which) ⊎ (bus_error_exception ≡ which)
unfolding use_entry
use_entry-refused m addr size w i e h = ground arith

delayed_load-SameMemory :
    (m : Machine) (r v : ℕ) {m' : Machine} → delayed_load m r v ≡ ok m' → SameMemory m m'
unfolding delayed_load
delayed_load-SameMemory m r v h = ground arith

AccessException-of_entry :
    {which : ExceptionType}
    → (read_only_exception ≡ which) ⊎ (bus_error_exception ≡ which)
    → AccessException which
AccessException-of_entry (inl q) = rw (← q) read_only
AccessException-of_entry (inr q) = rw (← q) bus_error

use_lookup-AccessException :
    (m : Machine) (addr size : ℕ) (w : Bool) (l : Lookup) {which : ExceptionType}
    → lookup m.tlb m.page_table m.page_table_size (addr / page_size) ≡ ok l
    → use_entry m addr size w l ≡ ok (refused which)
    → AccessException which
unfolding use_entry
use_lookup-AccessException m addr size w (missing trap) found h =
    AccessException-of (
      lookup-missing m.tlb m.page_table m.page_table_size (addr / page_size) (found ∙ ground arith))
use_lookup-AccessException m addr size w (entry_at i e) found h =
    AccessException-of_entry (use_entry-refused m addr size w i e h)

translate-AccessException :
    (m : Machine) (addr size : ℕ) (w : Bool) {which : ExceptionType}
    → translate m addr size w ≡ ok (refused which)
    → AccessException which
unfolding translate
translate-AccessException m addr size w {which} h = elim (Bool-cases (misaligned addr size)) [
  | inl bad ↦ AccessException-of (inr (ground (arith, bad)))
  | inr good ↦
      let (l, found, finished) =
        >>=-eq-ok (lookup m.tlb m.page_table m.page_table_size (addr / page_size))
          (use_entry m addr size w) (sym (rw good) ∙ h) in
      use_lookup-AccessException m addr size w l found finished
]

module _ (system_call : Machine → Result Machine) where
  raise_exception-SameMemory :
      (m : Machine) (which : ExceptionType) (addr : ℕ) {m' : Machine}
      → AccessException which
      → raise_exception system_call m which addr ≡ ok m'
      → SameMemory m m' × (m'.status ≡ user_mode)
  unfolding raise_exception delayed_load
  raise_exception-SameMemory m which addr page_fault h = ground arith
  raise_exception-SameMemory m which addr address_error h = ground arith
  raise_exception-SameMemory m which addr read_only h = ground arith
  raise_exception-SameMemory m which addr bus_error h = ground arith

  finish_write-refused :
      (m : Machine) (addr size value : ℕ) (t : Translation) {m' : Machine}
      → finish_write system_call m addr size value t ≡ ok (false, m')
      → (which : ExceptionType) × (t ≡ refused which)
        × (raise_exception system_call m which addr ≡ ok m')
  finish_write-refused m addr size value (refused which) h =
      let (n, raised, same) =
        >>=-eq-ok (raise_exception system_call m which addr) (λ n. ok (false, n)) h in
      (which, refl, raised ∙ ground (arith, same))
  finish_write-refused m addr size value (mapped at n) h =
      let (memory, stored, same) =
        >>=-eq-ok (store n.main_memory at size value)
          (λ memory. ok (true, record n { main_memory = memory })) h in
      cc

  -- When WriteMem returns FALSE, the translation ended in an exception, which is a page fault, an
  -- address error, a read-only or a bus error; memory and both tables, use and dirty bits included,
  -- are as before, and the machine is back in user mode. This holds for any behaviour of the system
  -- calls.
  pub write_mem-refused :
      (m m' : Machine) (addr size value : ℕ)
      → write_mem system_call m addr size value ≡ ok (false, m')
      → (which : ExceptionType) × AccessException which
        × (translate m addr size true ≡ ok (refused which))
        × SameMemory m m'
        × (m'.status ≡ user_mode)
  unfolding write_mem
  write_mem-refused m m' addr size value h =
      let (t, translated, finished) =
        >>=-eq-ok (translate m addr size true) (finish_write system_call m addr size value) h in
      let (which, is_refused, raised) = finish_write-refused m addr size value t finished in
      let access = translate-AccessException m addr size true (translated ∙ ap ok is_refused) in
      let (same, status) = raise_exception-SameMemory m which addr access raised in
      (which, access, translated ∙ ap ok is_refused, same, status)
