-- ===== src/OpenFile.antt =====
-- nachos/nachos-3.4/code/filesys/openfile.h and openfile.cc, the file system's own version: reads
-- and writes at any byte, over a disk that moves whole sectors. The constructors, which fetch the
-- header, are in the file system's module. Byte counts and positions are not negative. Where the sum
-- of both is no int, the overflow is undefined, and the model stops in wild_access.
pub mod Bytes
pub mod Read
pub mod Write
pub mod Cursor
mod Examples
use os_project2_nach_os.Base.{
  ℕ, zero, suc, ◌+◌, ◌-◌, ◌*◌, ◌%◌, ◌^◌, Bool, true, false, ◌&&◌, ◌||◌, not, List, [], ◌++◌, Result,
  ok, err, wild_access, ◌>>=◌, length, take, ltb, leb, ◌==◌, if◌then◌else◌,
}
use os_project2_nach_os.Base.Slices.{tabulate, slice, copy_from, copy_to}
use os_project2_nach_os.Utility.{div_round_down}
use os_project2_nach_os.Disk.{Disk, read_sector, write_sector}
use os_project2_nach_os.FileHeader.{FileHeader, sector_size, byte_to_sector, file_length}

pub record OpenFile : Type 0 where
  pub hdr : FileHeader
  pub seek_position : ℕ
  pub type : ℕ

-- The loop that fills the buffer, from its start, with the sectors from i on.
unfoldable pub read_sectors : ℕ → ℕ → FileHeader → Disk → Result (List ℕ × Disk)
read_sectors zero i h d = ok ([], d)
read_sectors (suc rounds) i h d = do
  s ← byte_to_sector h (i * sector_size)
  (bytes, d') ← read_sector d s
  (later, d'') ← read_sectors rounds (i + 1) h d'
  ok (bytes ++ later, d'')

-- The request cut at the end of the file; read_at and write_at test that position + n is an int.
abbrev pub clip : ℕ → ℕ → ℕ → ℕ
clip len n position = if ltb len (position + n) then len - position else n

abbrev pub first_sector : ℕ → ℕ
first_sector position = div_round_down position sector_size

abbrev pub last_sector : ℕ → ℕ → ℕ
last_sector n position = div_round_down (position + n - 1) sector_size

abbrev pub sector_count : ℕ → ℕ → ℕ
sector_count n position = 1 + last_sector n position - first_sector position

-- ReadAt, once the request is known to hold a byte: what goes to `into` stands beside the count.
unfoldable pub read_part : FileHeader → Disk → ℕ → ℕ → Result (ℕ × List ℕ × Disk)
unfolding read_sectors
read_part h d n position = do
  (buf, d') ← read_sectors (sector_count n position) (first_sector position) h d
  into ← copy_from buf (position - first_sector position * sector_size) n
  ok (n, into, d')

unfoldable pub read_at : FileHeader → Disk → ℕ → ℕ → Result (ℕ × List ℕ × Disk)
unfolding read_part file_length
read_at h d n position =
    if n == 0 || leb (file_length h) position
    then ok (0, [], d)
    else if ltb (position + n) (2 ^ 31)
    then read_part h d (clip (file_length h) n position) position
    else err wild_access

-- ReadAt(&buf[off], SectorSize, position)
unfoldable pub read_into : List ℕ → ℕ → FileHeader → Disk → ℕ → Result (List ℕ × Disk)
unfolding read_at
read_into buf off h d position = do
  (n, into, d') ← read_at h d sector_size position
  buf' ← copy_to buf off into
  ok (buf', d')

-- The loop that writes the sectors from i on back, from offset off of the buffer.
unfoldable pub write_sectors : ℕ → ℕ → ℕ → List ℕ → FileHeader → Disk → Result Disk
write_sectors zero i off buf h d = ok d
write_sectors (suc rounds) i off buf h d = do
  s ← byte_to_sector h (i * sector_size)
  bytes ← copy_from buf off sector_size
  d' ← write_sector d s bytes
  write_sectors rounds (i + 1) (off + sector_size) buf h d'

abbrev pub first_aligned : ℕ → Bool
first_aligned position = position == first_sector position * sector_size

abbrev pub last_aligned : ℕ → ℕ → Bool
last_aligned n position = position + n == (last_sector n position + 1) * sector_size

-- The buffer of WriteAt before the new bytes are copied in: what `new` found, with the first and
-- the last sector read where the request covers only part of them.
unfoldable pub fetch_first : List ℕ → FileHeader → Disk → ℕ → Result (List ℕ × Disk)
unfolding read_into
fetch_first buf h d position =
    if first_aligned position
    then ok (buf, d)
    else read_into buf 0 h d (first_sector position * sector_size)

unfoldable pub fetch_last : List ℕ → FileHeader → Disk → ℕ → ℕ → Result (List ℕ × Disk)
unfolding read_into
fetch_last buf h d n position =
    if not (last_aligned n position)
      && (not (first_sector position == last_sector n position) || first_aligned position)
    then read_into buf ((last_sector n position - first_sector position) * sector_size) h d
        (last_sector n position * sector_size)
    else ok (buf, d)

-- WriteAt, once the request is known to hold a byte; garbage is what `new char[]` finds.
unfoldable pub write_part : (ℕ → ℕ) → FileHeader → Disk → List ℕ → ℕ → ℕ → Result (ℕ × Disk)
unfolding fetch_first fetch_last write_sectors
write_part garbage h d from n position = do
  let buf = tabulate garbage 0 (sector_count n position * sector_size)
  (buf', d') ← fetch_first buf h d position
  (buf'', d'') ← fetch_last buf' h d' n position
  new_bytes ← copy_from from 0 n
  whole ← copy_to buf'' (position - first_sector position * sector_size) new_bytes
  d''' ← write_sectors (sector_count n position) (first_sector position) 0 whole h d''
  ok (n, d''')

unfoldable pub write_at : (ℕ → ℕ) → FileHeader → Disk → List ℕ → ℕ → ℕ → Result (ℕ × Disk)
unfolding write_part file_length
write_at garbage h d from n position =
    if n == 0 || leb (file_length h) position
    then ok (0, d)
    else if ltb (position + n) (2 ^ 31)
    then write_part garbage h d from (clip (file_length h) n position) position
    else err wild_access

unfoldable pub seek : OpenFile → ℕ → OpenFile
seek f position = record f { seek_position = position }

unfoldable pub read : OpenFile → Disk → ℕ → Result (ℕ × List ℕ × OpenFile × Disk)
unfolding read_at
read f d n = do
  (result, into, d') ← read_at f.hdr d n f.seek_position
  ok (result, into, record f { seek_position = f.seek_position + result }, d')

unfoldable pub write : (ℕ → ℕ) → OpenFile → Disk → List ℕ → ℕ → Result (ℕ × OpenFile × Disk)
unfolding write_at
write garbage f d from n = do
  (result, d') ← write_at garbage f.hdr d from n f.seek_position
  ok (result, record f { seek_position = f.seek_position + result }, d')

unfoldable pub length_of : OpenFile → ℕ
unfolding file_length
length_of f = file_length f.hdr
