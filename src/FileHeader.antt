-- ===== src/FileHeader.antt =====
-- nachos/nachos-3.4/code/filesys/filehdr.h and filehdr.cc: where the data of a file lie on disk.
-- An `int` is its 32-bit pattern, so that the slot -1 is stored as 2 ^ 32 - 1. The array
-- `dataSectors` is a list whose length the lemmas take as a hypothesis; a store or a read outside
-- it is `wild_access`.
pub mod Slots
pub mod Allocate
pub mod Deallocate
mod Examples
use os_project2_nach_os.Base.{
  ℕ, zero, suc, ◌+◌, ◌-◌, ◌*◌, ◌/◌, ◌^◌, Bool, true, false, List, Option, none, some, Result, ok,
  err, assertion_failed, wild_access, ◌>>=◌, or_wild, get_elem?, set, length, ltb, if◌then◌else◌,
}
use os_project2_nach_os.Utility.{div_round_up}
use os_project2_nach_os.BitMap.{BitMap, find_free_slot, num_clear, test, clear}

abbrev pub sector_size : ℕ
sector_size = 512

-- (SectorSize - 2 * sizeof(int)) / sizeof(int)
abbrev pub num_direct : ℕ
num_direct = (sector_size - 2 * 4) / 4

abbrev pub max_file_size : ℕ
max_file_size = num_direct * sector_size

pub record FileHeader : Type 0 where
  pub num_bytes : ℕ
  pub num_sectors : ℕ
  pub data_sectors : List ℕ

-- The `int` that FindFreeSlot returns.
abbrev pub slot_int : Option ℕ → ℕ
slot_int none = 2 ^ 32 - 1
slot_int (some s) = s

-- dataSectors[i] = s
abbrev pub store_sector : FileHeader → ℕ → ℕ → Result FileHeader
store_sector h i s =
    if ltb i (length h.data_sectors)
    then ok (record h { data_sectors = set h.data_sectors i s })
    else err wild_access

unfoldable pub allocate_each : ℕ → ℕ → FileHeader → BitMap → Result (FileHeader × BitMap)
allocate_each zero i h m = ok (h, m)
allocate_each (suc rounds) i h m = do
  (s, m') ← find_free_slot m
  h' ← store_sector h i (slot_int s)
  allocate_each rounds (i + 1) h' m'

-- The header with the size of the file and the number of its sectors, the first two stores.
abbrev pub sized : FileHeader → ℕ → FileHeader
sized h file_size = record h {
  num_bytes = file_size;
  num_sectors = div_round_up file_size sector_size;
}

unfoldable pub allocate : FileHeader → BitMap → ℕ → Result (Bool × FileHeader × BitMap)
unfolding allocate_each
allocate h free_map file_size = do
  let h' = sized h file_size
  free ← num_clear free_map
  let taken = allocate_each h'.num_sectors 0 h' free_map >>= λ (h'', m). ok (true, h'', m)
  if ltb free h'.num_sectors then ok (false, h', free_map) else taken

unfoldable pub deallocate_each : ℕ → ℕ → FileHeader → BitMap → Result BitMap
deallocate_each zero i h m = ok m
deallocate_each (suc rounds) i h m = do
  s ← or_wild (get_elem? h.data_sectors i)
  used ← test m s
  m' ← (if used then clear m s else err assertion_failed)
  deallocate_each rounds (i + 1) h m'

unfoldable pub deallocate : FileHeader → BitMap → Result BitMap
unfolding deallocate_each
deallocate h free_map = deallocate_each h.num_sectors 0 h free_map

unfoldable pub byte_to_sector : FileHeader → ℕ → Result ℕ
byte_to_sector h offset = or_wild (get_elem? h.data_sectors (offset / sector_size))

unfoldable pub file_length : FileHeader → ℕ
file_length h = h.num_bytes
