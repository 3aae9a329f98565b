-- ===== src/Memory/RoundTrip.antt =====
-- A value written is the value read back at the same address.
use os_project2_nach_os.Base.{
  ℕ, ◌+◌, ◌%◌, ◌≤◌, ◌<◌, ◌⊎◌, ◌≡◌, refl, sym, ap, ◌∙◌, true, false, Bool-cases, inl, inr, some,
  List, length, Result, ok, >>=-eq-ok, ltb, ◌==◌, if◌then◌else◌, arith,
}
use os_project2_nach_os.Base.Slices.{
  slice, slice-paste, length-paste, paste, byte_at, byte_at-paste_before, byte_at-paste_after,
}
use os_project2_nach_os.Memory.{
  TranslationEntry, Machine, touch, store_entry, Translation, refused, mapped, translate,
}
use os_project2_nach_os.Memory.Words.{
  le_bytes, le_value, length-le_bytes, le_value-le_bytes_one, le_value-le_bytes_two,
  le_value-le_bytes_four,
}
use os_project2_nach_os.Memory.Access.{
  load, store, extended, is_access_size, read_mem, write_mem, raise_exception, finish_write,
}
use os_project2_nach_os.Memory.Translated.{
  Translates, translate-Translates, Translates-translate, Translates-again,
}

-- The value that a read of `size` bytes gives after `value` was written.
abbrev pub read_back : ℕ → ℕ → ℕ
read_back size value =
    if size == 4
    then value
    else (if size == 2
        then value % 65536
        else (if ltb (value % 256) 128 then value % 256 else value % 256 + 4294967040))

store-ok :
    (memory : List ℕ) (at size value : ℕ) {memory' : List ℕ}
    → store memory at size value ≡ ok memory'
    → (is_access_size size ≡ true)
      × (at + size ≤ length memory)
      × (memory' ≡ paste memory at (le_bytes size value))
unfolding store
store-ok memory at size value h = elim (Bool-cases (is_access_size size)) [
  | inl good ↦ (good, ground (arith, good, length-le_bytes size value), ground (arith, good))
  | inr bad ↦ ground (arith, bad)
]

pub access_sizes : (size : ℕ) → is_access_size size ≡ true → (size ≡ 1) ⊎ ((size ≡ 2) ⊎ (size ≡ 4))
access_sizes size access = ground arith

extended-le_value :
    (size value : ℕ)
    → is_access_size size ≡ true
    → value < 4294967296
    → extended size (le_value (le_bytes size value)) ≡ read_back size value
extended-le_value size value access h = elim (access_sizes size access) [
  | inl one ↦ rw (one) (ground (arith, le_value-le_bytes_one value))
  | inr (inl two) ↦ rw (two) (ground (arith, le_value-le_bytes_two value))
  | inr (inr four) ↦ rw (four) (ground (arith, le_value-le_bytes_four value))
]

loaded_slice :
    (memory : List ℕ) (at size value : ℕ)
    → at + size ≤ length memory
    → slice (paste memory at (le_bytes size value)) at size ≡ le_bytes size value
loaded_slice memory at size value h =
    ap (slice (paste memory at (le_bytes size value)) at) (sym (length-le_bytes size value))
    ∙ slice-paste memory at (le_bytes size value) (omega (arith, length-le_bytes size value))

store-load :
    (memory : List ℕ) (at size value : ℕ) {memory' : List ℕ}
    → value < 4294967296
    → store memory at size value ≡ ok memory'
    → load memory' at size ≡ ok (read_back size value)
unfolding load
store-load memory at size value {memory'} h done =
    let (access, room, result) = store-ok memory at size value done in
    let fits : ltb (length (paste memory at (le_bytes size value))) (at + size) ≡ false =
      ground (arith, length-le_bytes size value, length-paste memory at (le_bytes size value)) in
    rw (result, access, fits, loaded_slice memory at size value room)
      (ap ok (extended-le_value size value access h))

module _ (system_call : Machine → Result Machine) where
  finish_write-Written :
      (m : Machine) (addr size value : ℕ) (t : Translation) {m' : Machine}
      → finish_write system_call m addr size value t ≡ ok (true, m')
      → (at : ℕ) × (n : Machine) × (memory : List ℕ) × (t ≡ mapped at n)
        × (store n.main_memory at size value ≡ ok memory)
        × (m' ≡ record n { main_memory = memory })
  finish_write-Written m addr size value (refused which) h =
      let (n, raised, same) =
        >>=-eq-ok (raise_exception system_call m which addr) (λ n. ok (false, n)) h in
      cc
  finish_write-Written m addr size value (mapped at n) h =
      let (memory, stored, same) =
        >>=-eq-ok (store n.main_memory at size value)
          (λ memory. ok (true, record n { main_memory = memory })) h in
      (at, n, memory, refl, stored, cc)

  pub write_mem-Written :
      (m : Machine) (addr size value : ℕ) {m' : Machine}
      → write_mem system_call m addr size value ≡ ok (true, m')
      → (i : ℕ) × (e : TranslationEntry) × (at : ℕ) × (memory : List ℕ) × Translates m addr size
          true i e at
        × (store m.main_memory at size value ≡ ok memory)
        × (m' ≡ record (store_entry m i (touch true e)) { main_memory = memory })
  unfolding write_mem
  write_mem-Written m addr size value {m'} h =
      let (t, translated, finished) =
        >>=-eq-ok (translate m addr size true) (finish_write system_call m addr size value) h in
      let (at, n, memory, is_mapped, stored, after) =
        finish_write-Written m addr size value t finished in
      let (i, e, translates, touched) =
        translate-Translates m addr size true (translated ∙ ap ok is_mapped) in
      (
        i,
        e,
        at,
        memory,
        translates,
        ap (λ x. store x.main_memory at size value) (sym touched) ∙ stored,
        after ∙ ap {A = Machine} {B = Machine} (λ n. record n { main_memory = memory }) touched,
      )

  read_mem-Translates :
      (m : Machine) (addr size : ℕ) {i : ℕ} {e : TranslationEntry} {at v : ℕ}
      → Translates m addr size false i e at
      → load m.main_memory at size ≡ ok v
      → read_mem system_call m addr size ≡ ok (some v, store_entry m i (touch false e))
  unfolding read_mem
  read_mem-Translates m addr size t loads = rw (Translates-translate m addr size false t, loads)

  reads_after :
      (m m' : Machine) (addr size value i : ℕ) (e : TranslationEntry) (at : ℕ) (memory : List ℕ)
      → Translates m addr size true i e at
      → load memory at size ≡ ok (read_back size value)
      → m' ≡ record (store_entry m i (touch true e)) { main_memory = memory }
      → (m'' : Machine) × (read_mem system_call m' addr size
          ≡ ok (some (read_back size value), m''))
        × (m''.main_memory ≡ m'.main_memory)
  reads_after m m' addr size value i e at memory translates loads after =
      let again = Translates-again m memory addr size true translates in
      let n = record (store_entry m i (touch true e)) { main_memory = memory } in
      rw (after) (
        store_entry n i (touch false (touch true e)),
        read_mem-Translates n addr size again loads,
        refl,
      )

  -- When WriteMem of a 32-bit value succeeds, a ReadMem of the same address and size succeeds too,
  -- changes no byte of memory, and gives the value written: all of it for a size of 4, its lowest
  -- 16 bits for a size of 2, and for a size of 1 its lowest byte, sign-extended.
  pub write_mem-read_mem :
      (m m' : Machine) (addr size value : ℕ)
      → value < 4294967296
      → write_mem system_call m addr size value ≡ ok (true, m')
      → (m'' : Machine) × (read_mem system_call m' addr size
          ≡ ok (some (read_back size value), m''))
        × (m''.main_memory ≡ m'.main_memory)
  write_mem-read_mem m m' addr size value h done =
      let (i, e, at, memory, translates, stored, after) =
        write_mem-Written m addr size value done in
      reads_after m m' addr size value i e at memory translates
        (store-load m.main_memory at size value h stored) after

  -- When WriteMem succeeds, the address was aligned, and the page's entry is not read-only and names
  -- a frame of the memory; every byte outside the `size` bytes at the address's offset in that frame
  -- is as before, and so is the size of the memory.
  pub write_mem-Isolated :
      (m m' : Machine) (addr size value : ℕ)
      → write_mem system_call m addr size value ≡ ok (true, m')
      → (i : ℕ) × (e : TranslationEntry) × (at : ℕ) × Translates m addr size true i e at
        × (e.read_only ≡ false)
        × (length m'.main_memory ≡ length m.main_memory)
        × ((k : ℕ)
            → (k < at) ⊎ (at + size ≤ k)
            → byte_at m'.main_memory k ≡ byte_at m.main_memory k)
  write_mem-Isolated m m' addr size value done =
      let (i, e, at, memory, translates, stored, after) =
        write_mem-Written m addr size value done in
      let (access, room, result) = store-ok m.main_memory at size value stored in
      let written : m'.main_memory ≡ paste m.main_memory at (le_bytes size value) =
        ap {A = Machine} (λ n. n.main_memory) after ∙ result in
      let fits : at + length (le_bytes size value) ≤ length m.main_memory =
        omega (arith, length-le_bytes size value) in
      (
        i,
        e,
        at,
        translates,
        ground (arith, translates.permitted),
        ap length written ∙ length-paste m.main_memory at (le_bytes size value) fits,
        λ k outside. ap (λ x. byte_at x k) written ∙ elim outside [
          | inl before ↦ byte_at-paste_before m.main_memory at (le_bytes size value) k fits before
          | inr behind ↦
              byte_at-paste_after m.main_memory at (le_bytes size value) k fits
                (omega (arith, length-le_bytes size value))
        ],
      )
