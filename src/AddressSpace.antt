-- ===== src/AddressSpace.antt =====
-- nachos/nachos-3.4/code/userprog/addrspace.cc, with the header of bin/noff.h: the address space of
-- a user program. Modelled is the constructor that takes a file's name, which MyStartProcess uses,
-- from the file that Open has found, and the destructor. A file is its bytes, which ReadAt gives
-- as OpenFile shows. An int is its 32-bit pattern; addresses do not wrap. On a little-endian host
-- WordToHost is the identity, so SwapHeader is not called. What noffH holds before ReadAt fills it, as
-- far as the file goes, is the parameter `garbage`. The lock addrLock, whose V stands twice on one
-- path, is left out.
pub mod Frames
pub mod Load
pub mod Create
mod Examples
use os_project2_nach_os.Base.{
  ℕ, zero, suc, ◌+◌, ◌-◌, ◌*◌, ◌%◌, ◌^◌, Bool, true, false, List, [], ◌∷◌, Option, none, some,
  Result, ok, err, assertion_failed, wild_access, ◌>>=◌, ◌&&◌, get_or, length, ltb, ◌==◌,
  if◌then◌else◌,
}
use os_project2_nach_os.Base.Slices.{byte_at, slice, copy_to}
use os_project2_nach_os.Utility.{div_round_up}
use os_project2_nach_os.BitMap.{BitMap, find_free_slot, num_clear, clear}
use os_project2_nach_os.FileHeader.{slot_int}
use os_project2_nach_os.Memory.{TranslationEntry, page_size}

abbrev pub user_stack_size : ℕ
user_stack_size = 1024

-- 0xbadfad
abbrev pub noff_magic : ℕ
noff_magic = 12246957

pub record Segment : Type 0 where
  pub virtual_addr : ℕ
  pub in_file_addr : ℕ
  pub size : ℕ

pub record NoffHeader : Type 0 where
  pub magic : ℕ
  pub code : Segment
  pub init_data : Segment
  pub uninit_data : Segment

-- A byte of noffH: the file's, or where the file has ended the one that was there.
abbrev pub header_byte : (ℕ → ℕ) → List ℕ → ℕ → ℕ
header_byte garbage file i = get_or file i (garbage i)

abbrev pub int_at : (ℕ → ℕ) → List ℕ → ℕ → ℕ
int_at garbage file i =
    header_byte garbage file i
    + 256 * header_byte garbage file (i + 1)
    + 65536 * header_byte garbage file (i + 2)
    + 16777216 * header_byte garbage file (i + 3)

abbrev pub segment_at : (ℕ → ℕ) → List ℕ → ℕ → Segment
segment_at garbage file i = record {
  virtual_addr = int_at garbage file i;
  in_file_addr = int_at garbage file (i + 4);
  size = int_at garbage file (i + 8);
}

-- executable->ReadAt((char *)&noffH, sizeof(noffH), 0)
abbrev pub header_of : (ℕ → ℕ) → List ℕ → NoffHeader
header_of garbage file = record {
  magic = int_at garbage file 0;
  code = segment_at garbage file 4;
  init_data = segment_at garbage file 16;
  uninit_data = segment_at garbage file 28;
}

pub record AddrSpace : Type 0 where
  pub page_table : List TranslationEntry
  pub num_pages : ℕ

abbrev pub new_entry : ℕ → ℕ → TranslationEntry
new_entry page frame = record {
  virtual_page = page;
  physical_page = frame;
  valid = true;
  read_only = false;
  used = false;
  dirty = false;
}

-- The loop that sets up the translation, from page i on.
unfoldable pub set_up : ℕ → ℕ → BitMap → Result (List TranslationEntry × BitMap)
set_up zero i frames = ok ([], frames)
set_up (suc rounds) i frames = do
  (s, frames') ← find_free_slot frames
  (table, frames'') ← set_up rounds (i + 1) frames'
  ok (new_entry i (slot_int s) ∷ table, frames'')

-- executable->ReadAt(into, PageSize, position); what lies behind the end of the file is not read.
abbrev pub read_page : List ℕ → ℕ → ℕ → List ℕ → Result (List ℕ)
read_page file position into memory =
    if length (slice file position page_size) == 0
    then ok memory
    else copy_to memory into (slice file position page_size)

-- The loop that copies in a segment, over the page table from page i on.
unfoldable pub copy_in : List ℕ → Segment → ℕ → List TranslationEntry → List ℕ → Result (List ℕ)
copy_in file s i [] memory = ok memory
copy_in file s i (e ∷ table) memory =
    read_page file (s.in_file_addr + i * page_size) (s.virtual_addr + e.physical_page * page_size)
      memory
    >>= copy_in file s (i + 1) table

-- An int is above 0.
abbrev pub is_positive : ℕ → Bool
is_positive a = ltb 0 a && ltb a (2 ^ 31)

abbrev pub copy_segment : List ℕ → Segment → List TranslationEntry → List ℕ → Result (List ℕ)
copy_segment file s table memory =
    if is_positive s.size then copy_in file s 0 table memory else ok memory

abbrev pub program_size : NoffHeader → ℕ
program_size h = (h.code.size + h.init_data.size + h.uninit_data.size + user_stack_size) % 2 ^ 32

-- numPages, which is 0 when there is too little memory.
abbrev pub pages_for : ℕ → ℕ → ℕ
pages_for free size =
    if ltb free (div_round_up size page_size) then 0 else div_round_up size page_size

-- The last `delete executable`: when there was too little memory, it is deleted already.
abbrev pub delete_executable : Bool → Result (Unit {0})
delete_executable deleted = if deleted then err wild_access else ok tt

-- With no file the fields are not initialised, which is `none`.
unfoldable pub create :
    (ℕ → ℕ) → Option (List ℕ) → BitMap → List ℕ → Result (Option AddrSpace × BitMap × List ℕ)
create garbage none frames memory = ok (none, frames, memory)
create garbage (some file) frames memory = do
  let h = header_of garbage file
  (if h.magic == noff_magic then ok tt else err assertion_failed) >>= λ (u : Unit {0}).
      num_clear frames >>= λ free.
      set_up (pages_for free (program_size h)) 0 frames >>= λ (table, frames').
      copy_segment file h.code table memory >>= λ memory'.
      copy_segment file h.init_data table memory' >>= λ memory''.
      delete_executable (ltb free (div_round_up (program_size h) page_size)) >>= λ (w : Unit {0}).
      ok (
        some (record { page_table = table; num_pages = pages_for free (program_size h) }),
        frames',
        memory'',
      )

-- AddrSpace::~AddrSpace, over the page table.
unfoldable pub release : List TranslationEntry → BitMap → Result BitMap
release [] frames = ok frames
release (e ∷ table) frames = clear frames e.physical_page >>= release table
