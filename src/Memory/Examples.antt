-- ===== src/Memory/Examples.antt =====
-- A machine with a page table of two pages, and the theorems at it.
use os_project2_nach_os.Base.{
  ℕ, ◌+◌, ◌≡◌, refl, ◌⊎◌, ◌≤◌, ◌<◌, Bool, true, false, [], ◌∷◌, none, some, Result, ok, length,
  replicate, arith, err,
}
use os_project2_nach_os.Base.Slices.{byte_at}
use os_project2_nach_os.Memory.{
  TranslationEntry, Machine, user_mode, refused, translate, ExceptionType,
}
use os_project2_nach_os.Memory.Access.{read_mem, write_mem}
use os_project2_nach_os.Memory.Translated.{Translates}
use os_project2_nach_os.Memory.RoundTrip.{write_mem-read_mem, write_mem-Isolated}
use os_project2_nach_os.Memory.Refused.{AccessException, SameMemory, write_mem-refused}

abbrev no_calls : Machine → Result Machine
no_calls m = ok m

abbrev page : ℕ → ℕ → Bool → TranslationEntry
page v p fixed = record {
  virtual_page = v;
  physical_page = p;
  valid = true;
  read_only = fixed;
  used = false;
  dirty = false;
}

abbrev two_pages : Machine
two_pages = record {
  main_memory = replicate 64 0;
  registers = replicate 40 0;
  tlb = none;
  page_table = some (page 0 3 true ∷ page 1 0 false ∷ []);
  page_table_size = 2;
  status = user_mode;
}

abbrev after {u} : {A : Type u} → Result (A × Machine) → Machine
after (ok (a, m)) = m
after (err fault) = two_pages

-- Byte 4 of page 1 is byte 4 of memory, since page 1 lies in frame 0, of which 64 bytes are listed.
abbrev written : Machine
written = after (write_mem no_calls two_pages 516 4 305419896)

lowest_byte_first : byte_at written.main_memory 4 ≡ 120
unfolding write_mem
lowest_byte_first = refl

write_mem-read_mem_example :
    (m'' : Machine) × (read_mem no_calls written 516 4 ≡ ok (some 305419896, m''))
    × (m''.main_memory ≡ written.main_memory)
unfolding write_mem
write_mem-read_mem_example =
    write_mem-read_mem no_calls two_pages written 516 4 305419896 (omega arith) refl

write_mem-Isolated_example :
    (i : ℕ) × (e : TranslationEntry) × (at : ℕ) × Translates two_pages 516 4 true i e at
    × (e.read_only ≡ false)
    × (length written.main_memory ≡ length two_pages.main_memory)
    × ((k : ℕ)
        → (k < at) ⊎ (at + 4 ≤ k)
        → byte_at written.main_memory k ≡ byte_at two_pages.main_memory k)
unfolding write_mem
write_mem-Isolated_example = write_mem-Isolated no_calls two_pages written 516 4 305419896 refl

-- Page 0 is read-only.
abbrev denied : Machine
denied = after (write_mem no_calls two_pages 8 2 7)

write_mem-refused_example :
    (which : ExceptionType) × AccessException which
    × (translate two_pages 8 2 true ≡ ok (refused which))
    × SameMemory two_pages denied
    × (denied.status ≡ user_mode)
unfolding write_mem
write_mem-refused_example = write_mem-refused no_calls two_pages denied 8 2 7 refl
