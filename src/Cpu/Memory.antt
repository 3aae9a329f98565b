-- ===== src/Cpu/Memory.antt =====
-- The accesses of memory keep the machine's state, and stay inside its arrays.
use native.Mathlib.Nat.{pow-suc}
use os_project2_nach_os.Base.{
  ℕ, zero, suc, ◌+◌, ◌-◌, ◌/◌, ◌^◌, ◌≤◌, ◌<◌, ◌≡◌, inl, inr, subst, ◌∙◌, Bool, true, false, List,
  [], ◌∷◌, Option, none, some, length, Result, ok, Ends, >>=-Ends, at_halt, ltb, arith,
}
use os_project2_nach_os.Base.Slices.{
  byte_at, byte_at-slice, length-slice, byte_at-paste, length-paste, slice,
}
use os_project2_nach_os.Memory.{
  ExceptionType, page_fault_exception, syscall_exception, Machine, memory_size, translate,
  Translation, refused, mapped, touch, system_mode, user_mode, MachineStatus,
}
use os_project2_nach_os.Memory.Words.{le_bytes, le_value, length-le_bytes}
use os_project2_nach_os.Memory.Access.{
  load, store, extended, is_access_size, exception_handler, raise_exception, bad_vaddr_reg,
  read_mem, write_mem, finish_read, finish_write,
}
use os_project2_nach_os.Memory.RoundTrip.{access_sizes}
use os_project2_nach_os.Memory.Translated.{translate_total, translate-Translates}
use os_project2_nach_os.Mult.{word}
use os_project2_nach_os.Cpu.{with_reg}
use os_project2_nach_os.Cpu.State.{
  IsMachine, IsReady, with_reg-IsMachine, store_entry-IsMachine, after_load, delayed_load-ok,
  after_load-IsReady, set_reg-ok,
}

-- What the proofs need of the system calls: they keep the state, and stop only where they may.
abbrev pub KeepsState : (Machine → Result Machine) → Type 0
KeepsState system_call = (m : Machine) → IsReady m → Ends IsReady (system_call m)

with_status-IsReady :
    (m : Machine) (s : MachineStatus) → IsReady m → IsReady (record m { status = s })
with_status-IsReady m s r = record {
  machine = record {
    register_count = r.machine.register_count;
    words = r.machine.words;
    load_target = r.machine.load_target;
    memory_full = r.machine.memory_full;
    bytes = r.machine.bytes;
    table = r.machine.table;
  };
  zero_reg = r.zero_reg;
}

with_memory-IsMachine :
    (m : Machine) (memory : List ℕ)
    → length memory ≡ memory_size
    → ((k : ℕ) → byte_at memory k < 256)
    → IsMachine m
    → IsMachine (record m { main_memory = memory })
with_memory-IsMachine m memory full bytes g = record {
  register_count = g.register_count;
  words = g.words;
  load_target = g.load_target;
  memory_full = full;
  bytes = bytes;
  table = g.table;
}

le_value-lt :
    (bs : List ℕ) → ((k : ℕ) → k < length bs → byte_at bs k < 256) → le_value bs < 256 ^ length bs
le_value-lt [] h = omega arith
le_value-lt (b ∷ bs) h =
    omega (arith, h 0, le_value-lt bs (λ k hk. h (suc k) (omega arith)), pow-suc 256 (length bs))

le_bytes-lt : (n v k : ℕ) → byte_at (le_bytes n v) k < 256
le_bytes-lt zero v k = omega arith
le_bytes-lt (suc n) v zero = omega arith
le_bytes-lt (suc n) v (suc k) = le_bytes-lt n (v / 256) k

exception_handler-Ends :
    (system_call : Machine → Result Machine) (which : ExceptionType) (m : Machine)
    → KeepsState system_call
    → IsReady m
    → Ends IsReady (exception_handler system_call which m)
exception_handler-Ends system_call page_fault_exception m keeps r = at_halt
exception_handler-Ends system_call syscall_exception m keeps r = keeps m r
exception_handler-Ends system_call other m keeps r = r

pub raise_exception-Ends :
    (system_call : Machine → Result Machine) (m : Machine) (which : ExceptionType) (bad_vaddr : ℕ)
    → KeepsState system_call
    → IsMachine m
    → bad_vaddr < word
    → Ends IsReady (raise_exception system_call m which bad_vaddr)
unfolding raise_exception
raise_exception-Ends system_call m which bad_vaddr keeps g small =
    let m1 = with_reg m bad_vaddr_reg bad_vaddr in
    let g1 =
      with_reg-IsMachine m bad_vaddr_reg bad_vaddr (λ q. absurd (omega (arith, q))) small g in
    let ready =
      with_status-IsReady (after_load m1 0 0) system_mode
        (after_load-IsReady m1 0 0 (omega arith) (omega arith) g1) in
    rw
      (
        set_reg-ok m.registers bad_vaddr_reg bad_vaddr (omega (arith, g.register_count)),
        delayed_load-ok m1 0 0 g1,
      )
      (>>=-Ends IsReady IsReady
        (exception_handler system_call which (record (after_load m1 0 0) { status = system_mode }))
        (λ m''. ok (record m'' { status = user_mode }))
        (exception_handler-Ends system_call which
          (record (after_load m1 0 0) { status = system_mode }) keeps ready)
        (λ m'' r. with_status-IsReady m'' user_mode r))

extended-lt : (size v : ℕ) → is_access_size size ≡ true → v < 256 ^ size → extended size v < word
extended-lt size v access h = elim (access_sizes size access) [
  | inl one ↦ let h' : v < 256 ^ 1 = subst (λ n. v < 256 ^ n) one h in ground (arith, one, h')
  | inr (inl two) ↦ let h' : v < 256 ^ 2 = subst (λ n. v < 256 ^ n) two h in ground (arith, two, h')
  | inr (inr four) ↦
      let h' : v < 256 ^ 4 = subst (λ n. v < 256 ^ n) four h in ground (arith, four, h')
]

slice_value :
    (memory : List ℕ) (at size : ℕ)
    → at + size ≤ length memory
    → ((k : ℕ) → byte_at memory k < 256)
    → le_value (slice memory at size) < 256 ^ size
slice_value memory at size room bytes =
    subst (λ n. le_value (slice memory at size) < 256 ^ n) full
      (le_value-lt (slice memory at size) (λ k hk.
        omega (arith, byte_at-slice memory at size k (omega (arith, full, hk)), bytes (at + k))))
  where
    full : length (slice memory at size) ≡ size
    full = length-slice memory at size room

load_bound :
    (memory : List ℕ) (at size : ℕ)
    → is_access_size size ≡ true
    → at + size ≤ length memory
    → ((k : ℕ) → byte_at memory k < 256)
    → extended size (le_value (slice memory at size)) < word
load_bound memory at size access room bytes =
    extended-lt size (le_value (slice memory at size)) access
      (slice_value memory at size room bytes)

load-Ends :
    (memory : List ℕ) (at size : ℕ)
    → is_access_size size ≡ true
    → length memory ≡ memory_size
    → at + size ≤ memory_size
    → ((k : ℕ) → byte_at memory k < 256)
    → Ends (λ v. v < word) (load memory at size)
unfolding load
load-Ends memory at size access full room bytes =
    let fits : ltb (length memory) (at + size) ≡ false = ground (arith, full, room) in
    rw (access, fits) (load_bound memory at size access (omega (arith, full, room)) bytes)

store-Ends :
    (memory : List ℕ) (at size v : ℕ)
    → is_access_size size ≡ true
    → length memory ≡ memory_size
    → at + size ≤ memory_size
    → ((k : ℕ) → byte_at memory k < 256)
    → Ends
        (λ memory'. (length memory' ≡ memory_size) × ((k : ℕ) → byte_at memory' k < 256))
        (store memory at size v)
unfolding store
store-Ends memory at size v access full room bytes =
    let fits : ltb (length memory) (at + length (le_bytes size v)) ≡ false =
      ground (arith, full, room, length-le_bytes size v) in
    let inside : at + length (le_bytes size v) ≤ length memory =
      omega (arith, full, room, length-le_bytes size v) in
    rw (access, fits)
      (
        length-paste memory at (le_bytes size v) inside ∙ full,
        λ k. ground (
          arith,
          byte_at-paste memory at (le_bytes size v) k inside,
          bytes k,
          le_bytes-lt size v (k - at),
        ),
      )

-- A read gives a word, and a refused one leaves the machine between instructions.
abbrev pub ReadDone : Option ℕ × Machine → Type 0
ReadDone (none, m) = IsReady m
ReadDone (some v, m) = IsMachine m × (v < word)

abbrev pub WriteDone : Bool × Machine → Type 0
WriteDone (false, m) = IsReady m
WriteDone (true, m) = IsMachine m

module _ (system_call : Machine → Result Machine) (keeps : KeepsState system_call) where
  finish_read-Ends :
      (m : Machine) (addr size : ℕ) (t : Translation)
      → IsMachine m
      → addr < word
      → is_access_size size ≡ true
      → translate m addr size false ≡ ok t
      → Ends ReadDone (finish_read system_call m addr size t)
  finish_read-Ends m addr size (refused which) g small access found =
      >>=-Ends IsReady ReadDone (raise_exception system_call m which addr) (λ m'. ok (none, m'))
        (raise_exception-Ends system_call m which addr keeps g small) (λ m' r. r)
  finish_read-Ends m addr size (mapped at m') g small access found =
      let (i, e, translates, touched) = translate-Translates m addr size false found in
      let g' : IsMachine m' = rw (touched) (store_entry-IsMachine m i (touch false e) g) in
      >>=-Ends (λ v. v < word) ReadDone (load m'.main_memory at size) (λ value. ok (some value, m'))
        (load-Ends m'.main_memory at size access g'.memory_full translates.within g'.bytes)
        (λ v h. (g', h))

  pub read_mem-Ends :
      (m : Machine) (addr size : ℕ)
      → IsMachine m
      → addr < word
      → is_access_size size ≡ true
      → Ends ReadDone (read_mem system_call m addr size)
  unfolding read_mem
  read_mem-Ends m addr size g small access =
      let (t, found) = translate_total m addr size false g.table access in
      rw (found) (finish_read-Ends m addr size t g small access found)

  finish_write-Ends :
      (m : Machine) (addr size value : ℕ) (t : Translation)
      → IsMachine m
      → addr < word
      → is_access_size size ≡ true
      → translate m addr size true ≡ ok t
      → Ends WriteDone (finish_write system_call m addr size value t)
  finish_write-Ends m addr size value (refused which) g small access found =
      >>=-Ends IsReady WriteDone (raise_exception system_call m which addr) (λ m'. ok (false, m'))
        (raise_exception-Ends system_call m which addr keeps g small) (λ m' r. r)
  finish_write-Ends m addr size value (mapped at m') g small access found =
      let (i, e, translates, touched) = translate-Translates m addr size true found in
      let g' : IsMachine m' = rw (touched) (store_entry-IsMachine m i (touch true e) g) in
      >>=-Ends (λ memory. (length memory ≡ memory_size) × ((k : ℕ) → byte_at memory k < 256))
        WriteDone (store m'.main_memory at size value)
        (λ memory. ok (true, record m' { main_memory = memory }))
        (store-Ends m'.main_memory at size value access g'.memory_full translates.within g'.bytes)
        (λ memory (full, bytes). with_memory-IsMachine m' memory full bytes g')

  pub write_mem-Ends :
      (m : Machine) (addr size value : ℕ)
      → IsMachine m
      → addr < word
      → is_access_size size ≡ true
      → Ends WriteDone (write_mem system_call m addr size value)
  unfolding write_mem
  write_mem-Ends m addr size value g small access =
      let (t, found) = translate_total m addr size true g.table access in
      rw (found) (finish_write-Ends m addr size value t g small access found)
