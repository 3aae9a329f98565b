-- ===== src/Memory.antt =====
-- nachos/nachos-3.4/code/machine/translate.h and translate.cc: the user program's memory, and the
-- translation of its addresses by a page table or a TLB. With it stand the parts of
-- machine/machine.h, machine/machine.cc, machine/mipssim.cc and userprog/exception.cc that a failed
-- access runs. An int is its 32-bit pattern, from 0 to 2 ^ 32 - 1. The host is little endian and its
-- char is signed, so WordToHost and its kin are the identity and a byte read is sign-extended.
pub mod Words
pub mod Entries
pub mod Access
pub mod Translated
pub mod RoundTrip
pub mod Refused
mod Examples
use os_project2_nach_os.Base.{
  ℕ, zero, suc, ◌+◌, ◌-◌, ◌*◌, ◌/◌, ◌%◌, ◌^◌, Bool, true, false, ◌&&◌, ◌||◌, not, List, [], ◌∷◌,
  Option, none, some, Result, ok, err, or_wild, assertion_failed, machine_halted, ◌>>=◌, set,
  get_elem?, length, leb, ltb, ◌==◌, if◌then◌else◌,
}
use os_project2_nach_os.Base.Slices.{copy_from, copy_to}
use os_project2_nach_os.FileHeader.{sector_size}
use Words.{le_bytes, le_value}

pub data ExceptionType : Type 0 where
  no_exception syscall_exception page_fault_exception read_only_exception : ExceptionType
  bus_error_exception address_error_exception overflow_exception : ExceptionType
  illegal_instr_exception num_exception_types : ExceptionType

-- The field `use` is `used` here.
pub record TranslationEntry : Type 0 where
  pub virtual_page : ℕ
  pub physical_page : ℕ
  pub valid : Bool
  pub read_only : Bool
  pub used : Bool
  pub dirty : Bool

pub data MachineStatus : Type 0 where
  idle_mode system_mode user_mode : MachineStatus

-- `status` is the one of the object `interrupt`. A NULL table is `none`.
pub record Machine : Type 0 where
  pub main_memory : List ℕ
  pub registers : List ℕ
  pub tlb : Option (List TranslationEntry)
  pub page_table : Option (List TranslationEntry)
  pub page_table_size : ℕ
  pub status : MachineStatus

abbrev pub page_size : ℕ
page_size = sector_size

abbrev pub num_phys_pages : ℕ
num_phys_pages = 128

abbrev pub memory_size : ℕ
memory_size = num_phys_pages * page_size

abbrev pub tlb_size : ℕ
tlb_size = 4

-- What the search for a page's entry gives: the exception, or the entry with its index.
pub data Lookup : Type 0 where
  missing : ExceptionType → Lookup
  entry_at : ℕ → TranslationEntry → Lookup

unfoldable pub search_tlb : ℕ → ℕ → List TranslationEntry → ℕ → Result Lookup
search_tlb zero i tlb vpn = ok (missing page_fault_exception)
search_tlb (suc rounds) i tlb vpn =
    let later = search_tlb rounds (i + 1) tlb vpn in
    or_wild (get_elem? tlb i) >>= λ e.
    if e.valid && (e.virtual_page == vpn) then ok (entry_at i e) else later

abbrev pub index_table : List TranslationEntry → ℕ → ℕ → Result Lookup
index_table table size vpn =
    if leb size vpn
    then ok (missing address_error_exception)
    else (or_wild (get_elem? table vpn) >>= λ e.
        if e.valid then ok (entry_at vpn e) else ok (missing page_fault_exception))

abbrev pub lookup :
    Option (List TranslationEntry) → Option (List TranslationEntry) → ℕ → ℕ → Result Lookup
lookup none none size vpn = err assertion_failed
lookup (some t) (some p) size vpn = err assertion_failed
lookup none (some p) size vpn = index_table p size vpn
lookup (some t) none size vpn = search_tlb tlb_size 0 t vpn

-- entry->use = TRUE; if (writing) entry->dirty = TRUE;
abbrev pub touch : Bool → TranslationEntry → TranslationEntry
touch writing e = record e { used = true; dirty = writing || e.dirty }

abbrev pub store_in :
    Option (List TranslationEntry) → ℕ → TranslationEntry → Option (List TranslationEntry)
store_in none i e = none
store_in (some t) i e = some (set t i e)

-- The write through the pointer `entry`, which points into the one table there is.
abbrev pub store_entry : Machine → ℕ → TranslationEntry → Machine
store_entry m i e = record m { tlb = store_in m.tlb i e; page_table = store_in m.page_table i e }

-- What Translate returns: an exception, or NoException with the physical address.
pub data Translation : Type 0 where
  refused : ExceptionType → Translation
  mapped : ℕ → Machine → Translation

abbrev pub misaligned : ℕ → ℕ → Bool
misaligned addr size = (size == 4) && not (addr % 4 == 0) || (size == 2) && not (addr % 2 == 0)

abbrev pub phys_addr : TranslationEntry → ℕ → ℕ
phys_addr e addr = e.physical_page * page_size + addr % page_size

-- Translate, from the checks of the entry on.
unfoldable pub use_entry : Machine → ℕ → ℕ → Bool → Lookup → Result Translation
use_entry m addr size writing (missing which) = ok (refused which)
use_entry m addr size writing (entry_at i e) =
    if e.read_only && writing
    then ok (refused read_only_exception)
    else (if leb num_phys_pages e.physical_page
        then ok (refused bus_error_exception)
        else (if leb (phys_addr e addr + size) memory_size
            then ok (mapped (phys_addr e addr) (store_entry m i (touch writing e)))
            else err assertion_failed))

unfoldable pub translate : Machine → ℕ → ℕ → Bool → Result Translation
unfolding use_entry
translate m addr size writing =
    if misaligned addr size
    then ok (refused address_error_exception)
    else (lookup m.tlb m.page_table m.page_table_size (addr / page_size)
        >>= use_entry m addr size writing)
