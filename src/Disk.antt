-- ===== src/Disk.antt =====
-- nachos/nachos-3.4/code/machine/disk.cc (the requests and the interrupt) and
-- nachos/nachos-3.4/code/filesys/synchdisk.cc (a request followed by the wait for its interrupt).
-- The simulated disk is a function from sector numbers to the bytes of the sector. The latency of
-- a request, the trace output and the statistics are left out.
pub mod Requests
use os_project2_nach_os.Base.{
  ℕ, Bool, true, false, List, Result, ok, err, assertion_failed, ◌>>=◌, ◌>>◌, ◌*◌, ltb, ◌==◌,
  if◌then◌else◌,
}
use os_project2_nach_os.FileHeader.{sector_size}

abbrev pub sectors_per_track : ℕ
sectors_per_track = 32

abbrev pub num_tracks : ℕ
num_tracks = 32

-- NumSectors of the disk
abbrev pub disk_sectors : ℕ
disk_sectors = sectors_per_track * num_tracks

pub record Disk : Type 0 where
  pub store : ℕ → List ℕ
  pub active : Bool

-- ASSERT(!active); ASSERT((sectorNumber >= 0) && (sectorNumber < NumSectors));
abbrev pub check_request : Disk → ℕ → Result (Unit {0})
check_request d s = if d.active then err assertion_failed else check_sector
  where
    check_sector : Result (Unit {0})
    check_sector = if ltb s disk_sectors then ok tt else err assertion_failed

unfoldable pub read_request : Disk → ℕ → Result (List ℕ × Disk)
read_request d s = do check_request d s; ok (d.store s, record d { active = true })

unfoldable pub write_request : Disk → ℕ → List ℕ → Result Disk
write_request d s bytes = do
  check_request d s
  ok (record d { store = λ t. if t == s then bytes else d.store t; active = true })

unfoldable pub handle_interrupt : Disk → Disk
handle_interrupt d = record d { active = false }

-- SynchDisk::ReadSector: the semaphore is signalled by the interrupt that ends the request.
unfoldable pub read_sector : Disk → ℕ → Result (List ℕ × Disk)
unfolding read_request handle_interrupt
read_sector d s = do (bytes, d') ← read_request d s; ok (bytes, handle_interrupt d')

unfoldable pub write_sector : Disk → ℕ → List ℕ → Result Disk
unfolding write_request handle_interrupt
write_sector d s bytes = do d' ← write_request d s bytes; ok (handle_interrupt d')
