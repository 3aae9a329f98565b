-- ===== src/FileSystem.antt =====
-- nachos/nachos-3.4/code/filesys/filesys.h and filesys.cc, the version over the disk: files by name,
-- and the table of open files. The bitmap file, the directory file and the header sectors are what
-- WriteBack stored there last, so FetchFrom gives it back; the data sectors are OpenFile's. An int
-- that is -1 is `none`, a NULL pointer too. `new` gives a header with what it found in memory.
pub mod Table
pub mod Extents
pub mod Grow
pub mod Create
pub mod Remove
pub mod Undo
mod Examples
use os_project2_nach_os.Base.{
  ℕ, ◌+◌, Bool, true, false, ◌||◌, List, [], ◌∷◌, Option, none, some, Result, ok, ◌>>=◌, set, drop,
  ◌==◌, if◌then◌else◌,
}
use os_project2_nach_os.BitMap.{BitMap, find_free_slot, clear}
use os_project2_nach_os.FileHeader.{FileHeader, allocate, deallocate}
use os_project2_nach_os.Directory.{Directory, find, add, remove as remove_name}
use os_project2_nach_os.OpenFile.{OpenFile}

-- N_FILES_IN_TABLE
abbrev pub files_in_table : ℕ
files_in_table = 100

pub record FileSystem : Type 0 where
  pub file_table : List (Option OpenFile)
  pub free_map : BitMap
  pub directory : Directory
  pub headers : ℕ → FileHeader

-- hdr->WriteBack(sector)
abbrev pub write_back : (ℕ → FileHeader) → ℕ → FileHeader → ℕ → FileHeader
write_back headers sector hdr s = if s == sector then hdr else headers s

-- Create with the header allocated or not: the changes are flushed only if it is.
abbrev pub flush : Bool → ℕ → FileHeader → Directory → BitMap → FileSystem → Bool × FileSystem
flush fits sector hdr d m fs =
    if fits
    then (
      true,
      record fs { free_map = m; directory = d; headers = write_back fs.headers sector hdr },
    )
    else (false, fs)

-- Create, once there is a sector for the header; `fresh` is the new header.
unfoldable pub create_at :
    FileHeader → List ℕ → ℕ → ℕ → BitMap → FileSystem → Result (Bool × FileSystem)
create_at fresh name initial_size sector m fs =
    let (added, d) = add fs.directory name sector in
    let flushed =
      allocate fresh m initial_size >>= λ (fits, hdr, m'). ok (flush fits sector hdr d m' fs) in
    if added then flushed else ok (false, fs)

unfoldable pub create : FileHeader → List ℕ → ℕ → FileSystem → Result (Bool × FileSystem)
unfolding create_at
create fresh name initial_size fs = elim (find fs.directory name) [
  | some s ↦ ok (false, fs)
  | none ↦ do
    (slot, m) ← find_free_slot fs.free_map
    elim slot [
      | none ↦ ok (false, fs)
      | some sector ↦ create_at fresh name initial_size sector m fs
    ]
]

unfoldable pub remove : List ℕ → FileSystem → Result (Bool × FileSystem)
remove name fs = elim (find fs.directory name) [
  | none ↦ ok (false, fs)
  | some sector ↦ do
    m ← deallocate (fs.headers sector) fs.free_map
    m' ← clear m sector
    ok (true, record fs { free_map = m'; directory = (remove_name fs.directory name).1 })
]

-- OpenFile::OpenFile(sector, _type)
abbrev pub open_file : (ℕ → FileHeader) → ℕ → ℕ → OpenFile
open_file headers sector type = record { hdr = headers sector; seek_position = 0; type = type }

-- The loop of getIdxFreeSlot over the slots from i on.
unfoldable pub free_slot_from : ℕ → List (Option OpenFile) → Option ℕ
free_slot_from i [] = none
free_slot_from i (none ∷ slots) = some i
free_slot_from i (some f ∷ slots) = free_slot_from (i + 1) slots

unfoldable pub get_idx_free_slot : FileSystem → Option ℕ
unfolding free_slot_from
get_idx_free_slot fs = free_slot_from 2 (drop 2 fs.file_table)

abbrev pub slot_for : ℕ → FileSystem → Option ℕ
slot_for type fs =
    if type == 2
    then some 0
    else if type == 3
    then some 1
    else if type == 0 || type == 1
    then get_idx_free_slot fs
    else none

-- FileSystem::Open(char*, int)
unfoldable pub open_typed : List ℕ → ℕ → FileSystem → Option ℕ × FileSystem
unfolding get_idx_free_slot
open_typed name type fs = elim (slot_for type fs) [
  | none ↦ (none, fs)
  | some slot ↦ elim (find fs.directory name) [
    | none ↦ (none, fs)
    | some sector ↦ (
      some slot,
      record fs { file_table = set fs.file_table slot (some (open_file fs.headers sector type)) },
    )
  ]
]

-- FileSystem::Open(char*), which opens with type 1 and does not enter the file in the table.
unfoldable pub open_untyped : List ℕ → FileSystem → Option OpenFile
unfolding get_idx_free_slot
open_untyped name fs = elim (get_idx_free_slot fs) [
  | none ↦ none
  | some slot ↦ elim (find fs.directory name) [
    | none ↦ none
    | some sector ↦ some (open_file fs.headers sector 1)
  ]
]
