-- ===== src/OpenFile/Read.antt =====
-- ReadAt returns the bytes of the file.
use os_project2_nach_os.Base.{
  ℕ, zero, suc, ◌+◌, ◌-◌, ◌*◌, ◌^◌, ◌≤◌, ◌<◌, min, ◌≡◌, refl, ap, ◌∙◌, true, false, List, [], ◌++◌,
  ok, length, length-append, ltb, lt→ltb, ge→ltb, ltb→lt, ltb_false→le, leb, ◌||◌, ◌==◌, arith,
  Bool-cases, inl, inr,
}
use os_project2_nach_os.Base.Slices.{
  byte_at, byte_at-append, slice, length-slice, byte_at-slice, eq-tabulate,
}
use os_project2_nach_os.Utility.{div_round_down}
use os_project2_nach_os.Disk.{Disk}
use os_project2_nach_os.Disk.Requests.{read_sector-idle}
use os_project2_nach_os.FileHeader.{FileHeader}
use os_project2_nach_os.OpenFile.{
  read_sectors, clip, first_sector, last_sector, sector_count, read_part, read_at,
}
use os_project2_nach_os.OpenFile.Bytes.{
  block, file_byte, file_bytes, IsStored, byte_to_sector-block, file_byte-block,
}

-- The buffer of ReadAt: the blocks from i on.
pub record Fetched (d : Disk) (h : FileHeader) (i rounds : ℕ) (buf : List ℕ) : Type 0 where
  pub full : length buf ≡ rounds * 512
  pub same : (j : ℕ) → j < rounds * 512 → byte_at buf j ≡ file_byte d h (i * 512 + j)

Fetched-later :
    (d : Disk) (h : FileHeader) (i rounds : ℕ) (buf : List ℕ) (j : ℕ)
    → Fetched d h (i + 1) rounds buf
    → length (d.store (block h i)) ≡ 512
    → 512 ≤ j
    → j < suc rounds * 512
    → byte_at (d.store (block h i) ++ buf) j ≡ file_byte d h (i * 512 + j)
Fetched-later d h i rounds buf j f len high lt =
    byte_at-append (d.store (block h i)) buf j
    ∙ rw (len, ge→ltb j 512 high)
        (f.same (j - 512) (omega arith)
          ∙ ap (file_byte d h) {x = (i + 1) * 512 + (j - 512)} {y = i * 512 + j} (omega arith))

read_sectors-Fetched :
    (rounds i : ℕ) (h : FileHeader) (d : Disk)
    → IsStored d h
    → i + rounds ≤ h.num_sectors
    → (buf : List ℕ) × (read_sectors rounds i h d ≡ ok (buf, d)) × Fetched d h i rounds buf
unfolding read_sectors
read_sectors-Fetched zero i h d v fit =
    ([], refl, record { full = omega arith; same = λ j hj. absurd (omega arith) })
read_sectors-Fetched (suc rounds) i h d v fit =
    let (buf, e, f) = read_sectors-Fetched rounds (i + 1) h d v (omega arith) in
    (
      d.store (block h i) ++ buf,
      rw (
        byte_to_sector-block h i (omega (arith, v.listed)),
        read_sector-idle d (block h i) v.idle (v.on_disk i (omega arith)),
        e,
      ),
      record {
        full = omega (
          arith,
          length-append (d.store (block h i)) buf,
          v.whole (block h i) (v.on_disk i (omega arith)),
          f.full,
        );
        same = λ j hj. elim (Bool-cases (ltb j 512)) [
          | inl low ↦ ground (
            arith,
            byte_at-append (d.store (block h i)) buf j,
            file_byte-block d h i j (ltb→lt j 512 low),
            v.whole (block h i) (v.on_disk i (omega arith)),
          )
          | inr high ↦
              Fetched-later d h i rounds buf j f (v.whole (block h i) (v.on_disk i (omega arith)))
                (ltb_false→le j 512 high) hj
        ];
      },
    )

-- Where the sectors of a request that is not empty begin and end.
pub record Spans (n position : ℕ) : Type 0 where
  pub starts : first_sector position * 512 ≤ position
  pub start_near : position < first_sector position * 512 + 512
  pub ends : position + n ≤ (last_sector n position + 1) * 512
  pub end_near : last_sector n position * 512 < position + n
  pub ordered : first_sector position ≤ last_sector n position
  pub counted : first_sector position + sector_count n position ≡ last_sector n position + 1

pub span : (n position : ℕ) → 0 < n → Spans n position
unfolding div_round_down
span n position h = record {
  starts = omega arith;
  start_near = omega arith;
  ends = omega arith;
  end_near = omega arith;
  ordered = omega arith;
  counted = omega arith;
}

-- The sectors of a request inside the file are the file's.
pub span_in_file :
    (d : Disk) (h : FileHeader) (n position : ℕ)
    → IsStored d h
    → Spans n position
    → position + n ≤ h.num_bytes
    → first_sector position + sector_count n position ≤ h.num_sectors
span_in_file d h n position v g fit = omega (arith, v.enough, g.counted, g.end_near)

slice-Fetched :
    (d : Disk) (h : FileHeader) (i rounds : ℕ) (buf : List ℕ) (n position : ℕ)
    → Fetched d h i rounds buf
    → i * 512 ≤ position
    → position + n ≤ (i + rounds) * 512
    → slice buf (position - i * 512) n ≡ file_bytes d h position n
slice-Fetched d h i rounds buf n position f lo hi =
    eq-tabulate (file_byte d h) (slice buf (position - i * 512) n) position (λ j hj.
      byte_at-slice buf (position - i * 512) n j (omega (arith, len))
      ∙ f.same (position - i * 512 + j) (omega (arith, len))
      ∙ ap (file_byte d h) (omega arith))
    ∙ ap (file_bytes d h position) len
  where
    len : length (slice buf (position - i * 512) n) ≡ n
    len = length-slice buf (position - i * 512) n (omega (arith, f.full))

pub read_part_lem :
    (h : FileHeader) (d : Disk) (n position : ℕ)
    → IsStored d h
    → 0 < n
    → position + n ≤ h.num_bytes
    → read_part h d n position ≡ ok (n, file_bytes d h position n, d)
unfolding read_part
read_part_lem h d n position v pos fit =
    let g = span n position pos in
    let i = first_sector position in
    let rounds = sector_count n position in
    let (buf, e, f) = read_sectors-Fetched rounds i h d v (span_in_file d h n position v g fit) in
    rw
      (
        e,
        ge→ltb (length buf) (position - i * 512 + n)
            (omega (arith, f.full, g.counted, g.ends, g.starts)),
      )
      (ap (λ r. ok (n, r, d))
        (slice-Fetched d h i rounds buf n position f g.starts (omega (arith, g.counted, g.ends))))

-- How many bytes a request reaches.
abbrev pub reached : FileHeader → ℕ → ℕ → ℕ
reached h n position = min n (h.num_bytes - position)

pub nothing_reached :
    (h : FileHeader) (n position : ℕ)
    → (n == 0 || leb h.num_bytes position) ≡ true
    → 0 ≡ reached h n position
nothing_reached h n position e = ground arith

pub clip_bounds :
    (h : FileHeader) (n position : ℕ)
    → (n == 0 || leb h.num_bytes position) ≡ false
    → (0 < clip h.num_bytes n position)
      × (position + clip h.num_bytes n position ≤ h.num_bytes)
      × (clip h.num_bytes n position ≡ reached h n position)
clip_bounds h n position e = ground arith

-- A read whose position and length add up to an int returns the bytes that the file holds from the
-- position on, as many as were asked for or as there are, with their number, and leaves the disk as
-- it was. It never fails.
pub read_at-file_bytes :
    (h : FileHeader) (d : Disk) (n position : ℕ)
    → IsStored d h
    → position + n < 2 ^ 31
    → read_at h d n position
      ≡ ok (reached h n position, file_bytes d h position (reached h n position), d)
unfolding read_at
read_at-file_bytes h d n position v small = elim (Bool-cases (n == 0 || leb h.num_bytes position)) [
  | inl nothing ↦ rw nothing (
      ap (λ k. ok (k, file_bytes d h position k, d)) {x = 0} {y = reached h n position}
        (nothing_reached h n position nothing))
  | inr some_bytes ↦
      rw (some_bytes, lt→ltb (position + n) (2 ^ 31) small)
        (read_part_lem h d (clip h.num_bytes n position) position v
            (clip_bounds h n position some_bytes).0 (clip_bounds h n position some_bytes).1
          ∙ ap (λ k. ok (k, file_bytes d h position k, d)) (clip_bounds h n position some_bytes).2)
]
