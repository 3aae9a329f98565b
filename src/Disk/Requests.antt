-- ===== src/Disk/Requests.antt =====
-- What the synchronous requests do on an idle disk.
use os_project2_nach_os.Base.{ℕ, ◌<◌, ◌≡◌, false, List, ok, ◌==◌, if◌then◌else◌, lt→ltb}
use os_project2_nach_os.Disk.{Disk, disk_sectors, read_sector, write_sector}

pub read_sector-idle :
    (d : Disk) (s : ℕ) → d.active ≡ false → s < disk_sectors → read_sector d s ≡ ok (d.store s, d)
unfolding read_sector
read_sector-idle d s idle h = rw (idle, lt→ltb s disk_sectors h)

pub write_sector-idle :
    (d : Disk) (s : ℕ) (bytes : List ℕ)
    → d.active ≡ false
    → s < disk_sectors
    → write_sector d s bytes
      ≡ ok (record d { store = λ t. if t == s then bytes else d.store t; active = false })
unfolding write_sector
write_sector-idle d s bytes idle h = rw (idle, lt→ltb s disk_sectors h)
