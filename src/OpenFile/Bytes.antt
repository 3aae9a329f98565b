-- ===== src/OpenFile/Bytes.antt =====
-- The bytes of a file, where its header says that they lie.
use os_project2_nach_os.Base.{
  ℕ, zero, suc, ◌+◌, ◌*◌, ◌/◌, ◌%◌, ◌≤◌, ◌<◌, ◌≡◌, ◌≢◌, false, ◌==◌, if◌then◌else◌, Bool-cases, inl,
  inr, List, ok, get_or, get_elem?-eq-get_or, length, arith,
}
use os_project2_nach_os.Base.Slices.{byte_at, tabulate}
use os_project2_nach_os.Disk.{Disk, disk_sectors}
use os_project2_nach_os.FileHeader.{FileHeader, byte_to_sector}

-- The disk sector of data block b.
abbrev pub block : FileHeader → ℕ → ℕ
block h b = get_or h.data_sectors b 0

abbrev pub file_byte : Disk → FileHeader → ℕ → ℕ
file_byte d h k = byte_at (d.store (block h (k / 512))) (k % 512)

-- The n bytes from position on.
abbrev pub file_bytes : Disk → FileHeader → ℕ → ℕ → List ℕ
file_bytes d h position n = tabulate (file_byte d h) position n

-- An idle disk, whose sectors are whole, and a header whose blocks are distinct sectors of it that
-- hold the file's bytes.
pub record IsStored (d : Disk) (h : FileHeader) : Type 0 where
  pub idle : d.active ≡ false
  pub whole : (s : ℕ) → s < disk_sectors → length (d.store s) ≡ 512
  pub enough : h.num_bytes ≤ h.num_sectors * 512
  pub listed : h.num_sectors ≤ length h.data_sectors
  pub on_disk : (b : ℕ) → b < h.num_sectors → block h b < disk_sectors
  pub distinct : (b c : ℕ) → b < h.num_sectors → c < h.num_sectors → block h b ≡ block h c → b ≡ c

pub byte_to_sector-block :
    (h : FileHeader) (b : ℕ)
    → b < length h.data_sectors
    → byte_to_sector h (b * 512) ≡ ok (block h b)
unfolding byte_to_sector
byte_to_sector-block h b lt = rw (at_block, get_elem?-eq-get_or h.data_sectors b 0 lt)
  where
    at_block : b * 512 / 512 ≡ b
    at_block = omega arith

-- Byte j of data block b.
pub file_byte-block :
    (d : Disk) (h : FileHeader) (b j : ℕ)
    → j < 512
    → file_byte d h (b * 512 + j) ≡ byte_at (d.store (block h b)) j
file_byte-block d h b j lt = rw (which, within)
  where
    which : (b * 512 + j) / 512 ≡ b
    which = omega arith

    within : (b * 512 + j) % 512 ≡ j
    within = omega arith

-- f without the value m, whose place f n takes.
abbrev without_top : ℕ → ℕ → (ℕ → ℕ) → ℕ → ℕ
without_top n m f b = if f b == m then f n else f b

-- Numbers below m that are distinct are at most m.
distinct_below :
    (n m : ℕ) (f : ℕ → ℕ)
    → ((b : ℕ) → b < n → f b < m)
    → ((b c : ℕ) → b < n → c < n → f b ≡ f c → b ≡ c)
    → n ≤ m
distinct_below zero m f low once = omega arith
distinct_below (suc n) zero f low once = absurd (omega (arith, low 0 (omega arith)))
distinct_below (suc n) (suc m) f low once =
    omega (arith, distinct_below n m (without_top n m f) moved_low moved_once)
  where
    apart : (b : ℕ) → b < n → f b ≢ f n
    apart b lt e = absurd (omega (arith, once b n (omega arith) (omega arith) e))

    moved_low : (b : ℕ) → b < n → without_top n m f b < m
    moved_low b lt = elim (Bool-cases (f b == m)) [
      | inl hit ↦
          let other = apart b lt in
          let last = low n (omega arith) in ground (arith, hit, other, last)
      | inr miss ↦ let here = low b (omega arith) in ground (arith, miss, here)
    ]

    moved_once : (b c : ℕ) → b < n → c < n → without_top n m f b ≡ without_top n m f c → b ≡ c
    moved_once b c hb hc same = elim (Bool-cases (f b == m)) [
      | inl hit ↦ elim (Bool-cases (f c == m)) [
        | inl hit' ↦ once b c (omega arith) (omega arith) (ground (arith, hit, hit'))
        | inr miss' ↦
            absurd (apart c hc (let z : f c ≡ f n = ground (arith, same, hit, miss') in z))
      ]
      | inr miss ↦ elim (Bool-cases (f c == m)) [
        | inl hit' ↦ absurd (apart b hb (let z : f b ≡ f n = ground (arith, same, miss, hit') in z))
        | inr miss' ↦ once b c (omega arith) (omega arith) (ground (arith, same, miss, miss'))
      ]
    ]

-- A file that is stored has no more blocks than the disk has sectors.
pub num_sectors-le : (d : Disk) (h : FileHeader) → IsStored d h → h.num_sectors ≤ disk_sectors
num_sectors-le d h v = distinct_below h.num_sectors disk_sectors (block h) v.on_disk v.distinct
