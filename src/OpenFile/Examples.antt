-- ===== src/OpenFile/Examples.antt =====
-- Reads and writes at concrete inputs.
use os_project2_nach_os.Base.{
  ℕ, zero, suc, ◌<◌, ◌≡◌, refl, false, List, [], ◌∷◌, replicate, length-replicate, ok, err,
  wild_access, arith,
}
use os_project2_nach_os.Utility.{div_round_down}
use os_project2_nach_os.Disk.{Disk, disk_sectors, read_sector}
use os_project2_nach_os.FileHeader.{FileHeader, byte_to_sector}
use os_project2_nach_os.OpenFile.{OpenFile, read_at, write_at}
use os_project2_nach_os.OpenFile.Bytes.{block, file_bytes, IsStored}
use os_project2_nach_os.OpenFile.Read.{read_at-file_bytes}
use os_project2_nach_os.OpenFile.Write.{Overwritten, write_at-Overwritten}
use os_project2_nach_os.OpenFile.Cursor.{write_at-read_at}

-- Each byte of sector s is s.
abbrev numbered : Disk
numbered = record { store = λ s. replicate 512 s; active = false }

-- A thousand bytes in the sectors 7 and 5.
abbrev file : FileHeader
file = record { num_bytes = 1000; num_sectors = 2; data_sectors = 7 ∷ 5 ∷ replicate 124 0 }

file_blocks : (b : ℕ) → b < 2 → block file b < disk_sectors
file_blocks zero h = omega arith
file_blocks (suc zero) h = omega arith
file_blocks (suc (suc b)) h = absurd (omega arith)

file_distinct : (b c : ℕ) → b < 2 → c < 2 → block file b ≡ block file c → b ≡ c
file_distinct zero zero h k e = refl
file_distinct zero (suc zero) h k e = absurd (omega arith)
file_distinct (suc zero) zero h k e = absurd (omega arith)
file_distinct (suc zero) (suc zero) h k e = refl
file_distinct (suc (suc b)) c h k e = absurd (omega arith)
file_distinct zero (suc (suc c)) h k e = absurd (omega arith)
file_distinct (suc zero) (suc (suc c)) h k e = absurd (omega arith)

file-IsStored : IsStored numbered file
file-IsStored = record {
  idle = refl;
  whole = λ s h. length-replicate 512 s;
  enough = omega arith;
  listed = omega arith;
  on_disk = file_blocks;
  distinct = file_distinct;
}

-- Four bytes across the border of the two sectors.
read_across : read_at file numbered 4 510 ≡ ok (4, 7 ∷ 7 ∷ 5 ∷ 5 ∷ [], numbered)
unfolding read_at byte_to_sector read_sector div_round_down
read_across = refl

-- A request that the end of the file cuts.
read_at_end : read_at file numbered 100 998 ≡ ok (2, 5 ∷ 5 ∷ [], numbered)
unfolding read_at byte_to_sector read_sector div_round_down
read_at_end = refl

-- The sum of the position and the length is no int.
read_at_overflow : read_at file numbered 2147483647 1 ≡ err wild_access
unfolding read_at byte_to_sector read_sector div_round_down
read_at_overflow = refl

read_at-file_bytes_example :
    read_at file numbered 4 510 ≡ ok (4, file_bytes numbered file 510 4, numbered)
read_at-file_bytes_example = read_at-file_bytes file numbered 4 510 file-IsStored (omega arith)

abbrev text : List ℕ
text = 1 ∷ 2 ∷ 3 ∷ 4 ∷ []

write_at-Overwritten_example :
    (d' : Disk) × (write_at (λ i. 255) file numbered text 4 510 ≡ ok (4, d'))
    × Overwritten numbered file text 4 510 d'
write_at-Overwritten_example =
    write_at-Overwritten (λ i. 255) file numbered text 4 510 file-IsStored (omega arith)
      (omega arith)

write_at-read_at_example :
    (d' : Disk) × (write_at (λ i. 255) file numbered text 4 998 ≡ ok (2, d'))
    × (read_at file d' 4 998 ≡ ok (2, 1 ∷ 2 ∷ [], d'))
write_at-read_at_example =
    write_at-read_at (λ i. 255) file numbered text 4 998 file-IsStored (omega arith) (omega arith)

abbrev opened : OpenFile
opened = record { hdr = file; seek_position = 996; type = 1 }
