-- ===== src/OpenFile/Write/Sectors.antt =====
-- The loop that writes whole sectors back.
use os_project2_nach_os.Base.{
  ℕ, zero, suc, ◌+◌, ◌-◌, ◌*◌, ◌/◌, ◌%◌, ◌≤◌, ◌<◌, ◌≡◌, ◌≢◌, refl, ap, ◌∙◌, false, List, ok, length,
  ge→ltb, ◌==◌, if◌then◌else◌, arith,
}
use native.Mathlib.Decide.{dec_lt}
use os_project2_nach_os.Base.Slices.{byte_at, slice, length-slice, byte_at-slice}
use os_project2_nach_os.Disk.{Disk}
use os_project2_nach_os.Disk.Requests.{write_sector-idle}
use os_project2_nach_os.FileHeader.{FileHeader}
use os_project2_nach_os.OpenFile.{write_sectors}
use os_project2_nach_os.OpenFile.Bytes.{block, file_byte, IsStored, byte_to_sector-block}

-- No data block of the file is sector s.
abbrev pub Foreign : FileHeader → ℕ → Type 0
Foreign h s = (b : ℕ) → b < h.num_sectors → s ≢ block h b

-- The blocks i, ..., i + rounds - 1 have the bytes of the buffer from off on; the rest of the file
-- and of the disk is as it was.
pub record Written (d : Disk) (h : FileHeader) (i rounds off : ℕ) (buf : List ℕ) (d' : Disk)
    : Type 0 where
  pub stored : IsStored d' h
  pub inside :
      (k : ℕ)
      → i * 512 ≤ k
      → k < (i + rounds) * 512
      → file_byte d' h k ≡ byte_at buf (off + (k - i * 512))
  pub below : (k : ℕ) → k < i * 512 → file_byte d' h k ≡ file_byte d h k
  pub above :
      (k : ℕ)
      → (i + rounds) * 512 ≤ k
      → k < h.num_sectors * 512
      → file_byte d' h k ≡ file_byte d h k
  pub others : (s : ℕ) → Foreign h s → d'.store s ≡ d.store s

-- The disk with block i overwritten.
abbrev with_block : Disk → FileHeader → ℕ → List ℕ → Disk
with_block d h i bytes = record d {
  store = λ t. if t == block h i then bytes else d.store t;
  active = false;
}

with_block-IsStored :
    (d : Disk) (h : FileHeader) (i : ℕ) (bytes : List ℕ)
    → IsStored d h
    → length bytes ≡ 512
    → IsStored (with_block d h i bytes) h
with_block-IsStored d h i bytes v len = record {
  idle = refl;
  whole = λ s hs. ground (arith, v.whole s hs);
  enough = v.enough;
  listed = v.listed;
  on_disk = v.on_disk;
  distinct = v.distinct;
}

with_block-here :
    (d : Disk) (h : FileHeader) (i : ℕ) (bytes : List ℕ) (k : ℕ)
    → k / 512 ≡ i
    → file_byte (with_block d h i bytes) h k ≡ byte_at bytes (k % 512)
with_block-here d h i bytes k e = ground (arith, ap (block h) e)

with_block-there :
    (d : Disk) (h : FileHeader) (i : ℕ) (bytes : List ℕ) (k : ℕ)
    → IsStored d h
    → i < h.num_sectors
    → k < h.num_sectors * 512
    → k / 512 ≢ i
    → file_byte (with_block d h i bytes) h k ≡ file_byte d h k
with_block-there d h i bytes k v hi hk ne = ground (arith, v.distinct (k / 512) i (omega arith) hi)

with_block-other :
    (d : Disk) (h : FileHeader) (i : ℕ) (bytes : List ℕ) (s : ℕ)
    → s ≢ block h i
    → (with_block d h i bytes).store s ≡ d.store s
with_block-other d h i bytes s ne = ground arith

pub write_sectors-Written :
    (rounds i off : ℕ) (buf : List ℕ) (h : FileHeader) (d : Disk)
    → IsStored d h
    → i + rounds ≤ h.num_sectors
    → off + rounds * 512 ≤ length buf
    → (d' : Disk) × (write_sectors rounds i off buf h d ≡ ok d') × Written d h i rounds off buf d'
unfolding write_sectors
write_sectors-Written zero i off buf h d v fit room = (
  d,
  refl,
  record {
    stored = v;
    inside = λ k lo hi. absurd (omega arith);
    below = λ k lo. refl;
    above = λ k lo hi. refl;
    others = λ s f. refl;
  },
)
write_sectors-Written (suc rounds) i off buf h d v fit room =
    let bytes = slice buf off 512 in
    let len = length-slice buf off 512 (omega arith) in
    let d₁ = with_block d h i bytes in
    let (d', e, w) =
      write_sectors-Written rounds (i + 1) (off + 512) buf h d₁
        (with_block-IsStored d h i bytes v len) (omega arith) (omega arith) in
    (
      d',
      rw
          (
            byte_to_sector-block h i (omega (arith, v.listed)),
            ge→ltb (length buf) (off + 512) (omega arith),
            write_sector-idle d (block h i) bytes v.idle (v.on_disk i (omega arith)),
          )
          e,
      record {
        stored = w.stored;
        inside = λ k lo hi. elim (dec_lt k ((i + 1) * 512)) [
          | yes low ↦
              w.below k low
              ∙ with_block-here d h i bytes k (omega arith)
              ∙ byte_at-slice buf off 512 (k % 512) (omega arith)
              ∙ ap (byte_at buf) (omega arith)
          | no high ↦ w.inside k (omega arith) (omega arith) ∙ ap (byte_at buf) (omega arith)
        ];
        below = λ k lo.
            w.below k (omega arith)
            ∙ with_block-there d h i bytes k v (omega arith) (omega arith) (omega arith);
        above = λ k lo hi.
            w.above k (omega arith) hi
            ∙ with_block-there d h i bytes k v (omega arith) hi (omega arith);
        others = λ s f. w.others s f ∙ with_block-other d h i bytes s (f i (omega arith));
      },
    )
