-- ===== src/OpenFile/Write.antt =====
-- WriteAt changes the bytes that it is given, and no others.
pub mod Sectors
pub mod Edges
use os_project2_nach_os.Base.{
  ℕ, zero, suc, ◌+◌, ◌-◌, ◌*◌, ◌^◌, ◌≤◌, ◌<◌, min, ◌≡◌, refl, sym, ap, ◌∙◌, true, false, ◌||◌, inl,
  inr, List, ok, length, ltb, lt→ltb, ge→ltb, leb, ◌==◌, if◌then◌else◌, arith, Bool-cases,
}
use native.Mathlib.Decide.{dec_lt}
use mathlib.Core.Path.{subst}
use os_project2_nach_os.Base.Slices.{
  byte_at, tabulate, length-tabulate, slice, length-slice, byte_at-slice, paste, length-paste,
  byte_at-paste_before, byte_at-paste_inside, byte_at-paste_after,
}
use os_project2_nach_os.Disk.{Disk}
use os_project2_nach_os.FileHeader.{FileHeader, sector_size}
use os_project2_nach_os.OpenFile.{
  clip, first_sector, last_sector, sector_count, write_part, write_at,
}
use os_project2_nach_os.OpenFile.Bytes.{file_byte, IsStored}
use os_project2_nach_os.OpenFile.Read.{
  Spans, span, span_in_file, reached, nothing_reached, clip_bounds,
}
use Sectors.{Foreign, Written, write_sectors-Written}
use Edges.{HasHead, HasTail, fetch_first-HasHead, fetch_last-HasTail}

-- The disk after n bytes of `from` have been written to the file at the position: the file is
-- still stored, its bytes are the new ones where they were written and the old ones elsewhere, and
-- no sector outside the file has changed.
pub record Overwritten (d : Disk) (h : FileHeader) (from : List ℕ) (n position : ℕ) (d' : Disk)
    : Type 0 where
  pub stored : IsStored d' h
  pub new : (k : ℕ) → k < n → file_byte d' h (position + k) ≡ byte_at from k
  pub before : (k : ℕ) → k < position → k < h.num_bytes → file_byte d' h k ≡ file_byte d h k
  pub behind : (k : ℕ) → position + n ≤ k → k < h.num_bytes → file_byte d' h k ≡ file_byte d h k
  pub others : (s : ℕ) → Foreign h s → d'.store s ≡ d.store s

module _ (d d' : Disk) (h : FileHeader) (from : List ℕ) (n position : ℕ) (buf : List ℕ)
    (v : IsStored d h) (g : Spans n position) (fit : position + n ≤ h.num_bytes)
    (given : n ≤ length from) (whole : length buf ≡ sector_count n position * 512)
    (head : HasHead d h position buf) (tail : HasTail d h n position buf) where
  abbrev off : ℕ
  off = position - first_sector position * 512

  abbrev new_bytes : List ℕ
  new_bytes = slice from 0 n

  len : length new_bytes ≡ n
  len = length-slice from 0 n (omega arith)

  room : off + length new_bytes ≤ length buf
  room = omega (arith, len, whole, g.counted, g.ends, g.starts)

  abbrev pasted : List ℕ
  pasted = paste buf off new_bytes

  -- A byte of the sectors that were written comes from the buffer.
  from_buffer :
      (k : ℕ)
      → Written d h (first_sector position) (sector_count n position) 0 pasted d'
      → first_sector position * 512 ≤ k
      → k < (last_sector n position + 1) * 512
      → file_byte d' h k ≡ byte_at pasted (k - first_sector position * 512)
  from_buffer k w lo hi =
      w.inside k lo (omega (arith, g.counted)) ∙ ap (byte_at pasted) (omega arith)

  -- The byte at an index of the buffer, as a byte of the file.
  as_file_byte :
      (k : ℕ)
      → first_sector position * 512 ≤ k
      → file_byte d h (first_sector position * 512 + (k - first_sector position * 512))
        ≡ file_byte d h k
  as_file_byte k lo = ap (file_byte d h) (omega arith)

  Written-new :
      (k : ℕ)
      → Written d h (first_sector position) (sector_count n position) 0 pasted d'
      → k < n
      → file_byte d' h (position + k) ≡ byte_at from k
  Written-new k w hk =
      from_buffer (position + k) w (omega (arith, g.starts)) (omega (arith, g.ends))
      ∙ byte_at-paste_inside buf off new_bytes (position + k - first_sector position * 512) room
          (omega (arith, g.starts)) (omega (arith, g.starts, len))
      ∙ byte_at-slice from 0 n (position + k - first_sector position * 512 - off)
          (omega (arith, g.starts))
      ∙ ap (byte_at from) (omega (arith, g.starts))

  Written-before :
      (k : ℕ)
      → Written d h (first_sector position) (sector_count n position) 0 pasted d'
      → k < position
      → file_byte d' h k ≡ file_byte d h k
  Written-before k w lt = elim (dec_lt k (first_sector position * 512)) [
    | yes outside ↦ w.below k outside
    | no inside ↦
        from_buffer k w (omega arith) (omega (arith, g.ends))
        ∙ byte_at-paste_before buf off new_bytes (k - first_sector position * 512) room
            (omega (arith, g.starts))
        ∙ head (k - first_sector position * 512) (omega arith)
        ∙ as_file_byte k (omega arith)
  ]

  Written-behind :
      (k : ℕ)
      → Written d h (first_sector position) (sector_count n position) 0 pasted d'
      → position + n ≤ k
      → k < h.num_bytes
      → file_byte d' h k ≡ file_byte d h k
  Written-behind k w ge inside = elim (dec_lt k ((last_sector n position + 1) * 512)) [
    | yes near ↦
        from_buffer k w (omega (arith, g.starts)) near
        ∙ byte_at-paste_after buf off new_bytes (k - first_sector position * 512) room
            (omega (arith, g.starts, len))
        ∙ tail (k - first_sector position * 512) (omega (arith, g.starts)) (omega (arith, g.starts))
            (omega (arith, g.starts))
        ∙ as_file_byte k (omega (arith, g.starts))
    | no far ↦ w.above k (omega (arith, g.counted)) (omega (arith, v.enough))
  ]

  Written-Overwritten :
      Written d h (first_sector position) (sector_count n position) 0 pasted d'
      → Overwritten d h from n position d'
  Written-Overwritten w = record {
    stored = w.stored;
    new = λ k hk. Written-new k w hk;
    before = λ k lt inside. Written-before k w lt;
    behind = λ k ge inside. Written-behind k w ge inside;
    others = w.others;
  }

write_part-Overwritten :
    (garbage : ℕ → ℕ) (h : FileHeader) (d : Disk) (from : List ℕ) (n position : ℕ)
    → IsStored d h
    → 0 < n
    → position + n ≤ h.num_bytes
    → n ≤ length from
    → (d' : Disk) × (write_part garbage h d from n position ≡ ok (n, d'))
      × Overwritten d h from n position d'
unfolding write_part
write_part-Overwritten garbage h d from n position v pos fit given =
    let g = span n position pos in
    let rounds = sector_count n position in
    let buf = tabulate garbage 0 (rounds * 512) in
    let len = length-tabulate garbage 0 (rounds * 512) in
    let (buf', e', len', head', first) =
      fetch_first-HasHead d h n position v g fit pos buf
        (omega (arith, len, g.counted, g.ordered)) in
    let (buf'', e'', len'', head, tail) =
      fetch_last-HasTail d h n position v g fit pos buf'
        (omega (arith, len, len', g.counted, g.ordered)) head' first in
    let whole : length buf'' ≡ rounds * 512 = omega (arith, len, len', len'') in
    let new_bytes = slice from 0 n in
    let off = position - first_sector position * 512 in
    let fits = room d d h from n position buf'' v g fit given whole head tail in
    let (d', e, w) =
      write_sectors-Written rounds (first_sector position) 0 (paste buf'' off new_bytes) h d v
        (span_in_file d h n position v g fit)
        (omega (arith, whole, length-paste buf'' off new_bytes fits)) in
    (
      d',
      rw (
        e',
        e'',
        ge→ltb (length from) (0 + n) (omega arith),
        ge→ltb (length buf'') (off + length new_bytes) fits,
        e,
      ),
      Written-Overwritten d d' h from n position buf'' v g fit given whole head tail w,
    )

-- A write puts as many of the bytes given as the file has room for behind the position, and
-- returns their number. The file has the new bytes there and the old ones before and behind them,
-- whatever the buffers of the routine held at first, and no sector that is not the file's changes.
-- It never fails on a file that is stored on the disk, if that many bytes are given and the position
-- and the length add up to an int.
pub write_at-Overwritten :
    (garbage : ℕ → ℕ) (h : FileHeader) (d : Disk) (from : List ℕ) (n position : ℕ)
    → IsStored d h
    → n ≤ length from
    → position + n < 2 ^ 31
    → (d' : Disk) × (write_at garbage h d from n position ≡ ok (reached h n position, d'))
      × Overwritten d h from (reached h n position) position d'
unfolding write_at
write_at-Overwritten garbage h d from n position v given small =
    elim (Bool-cases (n == 0 || leb h.num_bytes position)) [
      | inl nothing ↦ (
        d,
        rw nothing (ap (λ k. ok (k, d)) {x = 0} (nothing_reached h n position nothing)),
        record {
          stored = v;
          new = λ k hk. absurd (omega (arith, nothing_reached h n position nothing));
          before = λ k lt inside. refl;
          behind = λ k ge inside. refl;
          others = λ s f. refl;
        },
      )
      | inr some_bytes ↦
          let (pos, fit, same) = clip_bounds h n position some_bytes in
          let (d', e, o) =
            write_part-Overwritten garbage h d from (clip h.num_bytes n position) position v pos fit
              (omega (arith, same)) in
          (
            d',
            rw (some_bytes, lt→ltb (position + n) (2 ^ 31) small) (e ∙ ap (λ k. ok (k, d')) same),
            subst (λ k. Overwritten d h from k position d') same o,
          )
    ]
