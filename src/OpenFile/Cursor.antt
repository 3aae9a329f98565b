-- ===== src/OpenFile/Cursor.antt =====
-- Reads after writes, and the cursor of an open file.
use os_project2_nach_os.Base.{
  ℕ, zero, suc, ◌+◌, ◌^◌, ◌<◌, ◌≤◌, ◌≡◌, sym, ap, ◌∙◌, List, ◌∷◌, ◌++◌, ok, length, length-take,
  take, arith,
}
use mathlib.Core.Path.{ap₂}
use os_project2_nach_os.Base.Slices.{tabulate, byte_at-take, eq-tabulate}
use os_project2_nach_os.Disk.{Disk}
use os_project2_nach_os.FileHeader.{FileHeader}
use os_project2_nach_os.OpenFile.{OpenFile, read_at, write_at, read}
use os_project2_nach_os.OpenFile.Bytes.{file_byte, file_bytes, IsStored}
use os_project2_nach_os.OpenFile.Read.{reached, read_at-file_bytes}
use os_project2_nach_os.OpenFile.Write.{Overwritten, write_at-Overwritten}

pub file_bytes-Overwritten :
    (d d' : Disk) (h : FileHeader) (from : List ℕ) (n position : ℕ)
    → n ≤ length from
    → Overwritten d h from n position d'
    → file_bytes d' h position n ≡ take n from
file_bytes-Overwritten d d' h from n position given o = sym (
    eq-tabulate (file_byte d' h) (take n from) position
      (λ j hj. byte_at-take n from j (omega (arith, len)) ∙ sym (o.new j (omega (arith, len))))
    ∙ ap (file_bytes d' h position) len)
  where
    len : length (take n from) ≡ n
    len = omega (arith, length-take n from)

-- What was written is read back: after a write of n bytes at a position, a read of n bytes there
-- returns those of them that fit in the file, if the position and n add up to an int.
pub write_at-read_at :
    (garbage : ℕ → ℕ) (h : FileHeader) (d : Disk) (from : List ℕ) (n position : ℕ)
    → IsStored d h
    → n ≤ length from
    → position + n < 2 ^ 31
    → (d' : Disk) × (write_at garbage h d from n position ≡ ok (reached h n position, d'))
      × (read_at h d' n position ≡ ok (reached h n position, take (reached h n position) from, d'))
write_at-read_at garbage h d from n position v given small =
    let (d', e, o) = write_at-Overwritten garbage h d from n position v given small in
    (
      d',
      e,
      read_at-file_bytes h d' n position o.stored small
          ∙ ap (λ bytes. ok (reached h n position, bytes, d'))
              (file_bytes-Overwritten d d' h from (reached h n position) position (omega arith) o),
    )

tabulate-append :
    (f : ℕ → ℕ) (i a b : ℕ) → tabulate f i a ++ tabulate f (i + a) b ≡ tabulate f i (a + b)
tabulate-append f i zero b = ap₂ (λ j n. tabulate f j n) (omega arith) (omega arith)
tabulate-append f i (suc a) b =
    ap (λ r. f i ∷ r)
      (ap (λ j. tabulate f (i + 1) a ++ tabulate f j b) (omega arith)
        ∙ tabulate-append f (i + 1) a b)
    ∙ ap (tabulate f i) {x = suc (a + b)} {y = suc a + b} (omega arith)

-- Two reads in a row return together what one read of both lengths returns, and leave the cursor
-- where that leaves it.
pub read-read :
    (f : OpenFile) (d : Disk) (n m : ℕ)
    → IsStored d f.hdr
    → f.seek_position + (n + m) < 2 ^ 31
    → (f' : OpenFile) × (f'' : OpenFile) × (r : ℕ) × (s : ℕ) × (xs : List ℕ) × (ys : List ℕ) × (read
          f d n
        ≡ ok (r, xs, f', d))
      × (read f' d m ≡ ok (s, ys, f'', d))
      × (read f d (n + m) ≡ ok (r + s, xs ++ ys, f'', d))
unfolding read
read-read f d n m v small =
    let p = f.seek_position in
    let r = reached f.hdr n p in
    let s = reached f.hdr m (p + r) in
    (
      record f { seek_position = p + r },
      record f { seek_position = p + r + s },
      r,
      s,
      file_bytes d f.hdr p r,
      file_bytes d f.hdr (p + r) s,
      rw (read_at-file_bytes f.hdr d n p v (omega arith)),
      rw (read_at-file_bytes f.hdr d m (p + r) v (omega arith)),
      rw
          (
            read_at-file_bytes f.hdr d (n + m) p v small,
            tabulate-append (file_byte d f.hdr) p r s,
            total,
          )
          (ap
            (λ q.
              ok (r + s, tabulate (file_byte d f.hdr) p (r + s), record f { seek_position = q }, d))
            (omega arith)),
    )
  where
    total :
        reached f.hdr (n + m) f.seek_position
        ≡ reached f.hdr n f.seek_position
          + reached f.hdr m (f.seek_position + reached f.hdr n f.seek_position)
    total = omega arith
