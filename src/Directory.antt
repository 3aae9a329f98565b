-- ===== src/Directory.antt =====
-- nachos/nachos-3.4/code/filesys/directory.h and directory.cc: a table of file names.
-- `tableSize` is the length of `table`; a loop over the table is a recursion on it. A name is a
-- C string, and the index or sector -1 is `none`.
pub mod Lookup
pub mod Names
pub mod Update
mod Examples
use os_project2_nach_os.Base.{
  ℕ, zero, suc, ◌+◌, Bool, true, false, ◌&&◌, List, [], ◌∷◌, Option, none, some, get_elem?, set,
  if◌then◌else◌,
}
use os_project2_nach_os.Base.CString.{strncmp_eq, strncpy}

abbrev pub file_name_max_len : ℕ
file_name_max_len = 9

pub record DirectoryEntry : Type 0 where
  pub in_use : Bool
  pub sector : ℕ
  pub name : List ℕ

pub record Directory : Type 0 where
  pub table : List DirectoryEntry

-- The entries as `new` finds them, with inUse set to FALSE.
abbrev pub cleared : List DirectoryEntry → List DirectoryEntry
cleared [] = []
cleared (e ∷ es) = record e { in_use = false } ∷ cleared es

unfoldable pub init : List DirectoryEntry → Directory
init garbage = record { table = cleared garbage }

-- table[i].inUse && !strncmp(table[i].name, name, FileNameMaxLen)
unfoldable pub matches : DirectoryEntry → List ℕ → Bool
matches e name = e.in_use && strncmp_eq e.name name file_name_max_len

-- The loop of FindIndex from entry i on.
unfoldable pub find_index_from : ℕ → List DirectoryEntry → List ℕ → Option ℕ
find_index_from i [] name = none
find_index_from i (e ∷ es) name = if matches e name then some i else find_index_from (i + 1) es name

unfoldable pub find_index : Directory → List ℕ → Option ℕ
unfolding find_index_from
find_index d name = find_index_from 0 d.table name

unfoldable pub find : Directory → List ℕ → Option ℕ
find d name = elim (find_index d name) [
  | none ↦ none
  | some i ↦ elim (get_elem? d.table i) [ none ↦ none | some e ↦ some e.sector ]
]

-- The entry that Add writes over an unused one.
abbrev pub filled : DirectoryEntry → List ℕ → ℕ → DirectoryEntry
filled e name new_sector = record e {
  in_use = true;
  sector = new_sector;
  name = strncpy e.name name file_name_max_len;
}

-- The loop of Add: the first unused entry is filled; `none` if there is none.
unfoldable pub place : List DirectoryEntry → List ℕ → ℕ → Option (List DirectoryEntry)
place [] name new_sector = none
place (e ∷ es) name new_sector =
    if e.in_use
    then elim (place es name new_sector) [ none ↦ none | some es' ↦ some (e ∷ es') ]
    else some (filled e name new_sector ∷ es)

unfoldable pub add : Directory → List ℕ → ℕ → Bool × Directory
add d name new_sector = elim (find_index d name) [
  | some i ↦ (false, d)
  | none ↦ elim (place d.table name new_sector) [
    | none ↦ (false, d)
    | some t ↦ (true, record { table = t })
  ]
]

-- table[i].inUse = FALSE
abbrev pub free_entry : List DirectoryEntry → ℕ → List DirectoryEntry
free_entry [] i = []
free_entry (e ∷ es) zero = record e { in_use = false } ∷ es
free_entry (e ∷ es) (suc i) = e ∷ free_entry es i

unfoldable pub remove : Directory → List ℕ → Bool × Directory
remove d name = elim (find_index d name) [
  | none ↦ (false, d)
  | some i ↦ (true, record { table = free_entry d.table i })
]
