-- ===== src/OpenFile/Write/Edges.antt =====
-- The sectors that WriteAt reads first, because it covers only part of them.
use os_project2_nach_os.Base.{
  ℕ, ◌+◌, ◌-◌, ◌*◌, ◌^◌, ◌≤◌, ◌<◌, ◌≡◌, refl, ap, ◌∙◌, false, ◌&&◌, ◌||◌, not, inl, inr, List, ok,
  length, ge→ltb, ◌==◌, arith, Bool-cases, ==_iff,
}
use native.Mathlib.Decide.{dec_lt}
use os_project2_nach_os.Base.Slices.{
  byte_at, length-tabulate, byte_at-tabulate, paste, length-paste, byte_at-paste_before,
  byte_at-paste_inside,
}
use os_project2_nach_os.Disk.{Disk}
use os_project2_nach_os.FileHeader.{FileHeader}
use os_project2_nach_os.OpenFile.{
  read_into, first_sector, last_sector, first_aligned, last_aligned, fetch_first, fetch_last,
}
use os_project2_nach_os.OpenFile.Bytes.{file_byte, file_bytes, IsStored, num_sectors-le}
use os_project2_nach_os.OpenFile.Read.{Spans, reached, read_at-file_bytes}

-- Block i, as far as the file goes, is in the buffer at offset off; what was before off stays.
pub record Loaded (d : Disk) (h : FileHeader) (i off : ℕ) (buf buf' : List ℕ) : Type 0 where
  pub same_length : length buf' ≡ length buf
  pub loaded :
      (j : ℕ)
      → j < 512
      → i * 512 + j < h.num_bytes
      → byte_at buf' (off + j) ≡ file_byte d h (i * 512 + j)
  pub before : (j : ℕ) → j < off → byte_at buf' j ≡ byte_at buf j

read_into-Loaded :
    (buf : List ℕ) (off : ℕ) (h : FileHeader) (d : Disk) (i : ℕ)
    → IsStored d h
    → off + 512 ≤ length buf
    → i * 512 < h.num_bytes
    → (buf' : List ℕ) × (read_into buf off h d (i * 512) ≡ ok (buf', d)) × Loaded d h i off buf buf'
unfolding read_into
read_into-Loaded buf off h d i v room inside =
    let small : i * 512 + 512 < 2 ^ 31 = omega (arith, num_sectors-le d h v, v.enough, inside) in
    let r = reached h 512 (i * 512) in
    let bs = file_bytes d h (i * 512) r in
    let len = length-tabulate (file_byte d h) (i * 512) r in
    (
      paste buf off bs,
      rw (
        read_at-file_bytes h d 512 (i * 512) v small,
        ge→ltb (length buf) (off + length bs) (omega (arith, len)),
      ),
      record {
        same_length = length-paste buf off bs (omega (arith, len));
        loaded = λ j hj inside.
            byte_at-paste_inside buf off bs (off + j) (omega (arith, len)) (omega arith)
              (omega (arith, len))
            ∙ ap (byte_at bs) {x = off + j - off} {y = j} (omega arith)
            ∙ byte_at-tabulate (file_byte d h) (i * 512) r j (omega arith);
        before = λ j hj. byte_at-paste_before buf off bs j (omega (arith, len)) hj;
      },
    )

-- The bytes of the first sector that lie before the request.
abbrev pub HasHead : Disk → FileHeader → ℕ → List ℕ → Type 0
HasHead d h position buf =
    (j : ℕ)
    → first_sector position * 512 + j < position
    → byte_at buf j ≡ file_byte d h (first_sector position * 512 + j)

-- The bytes of the last sector that lie behind the request, as far as the file goes.
abbrev pub HasTail : Disk → FileHeader → ℕ → ℕ → List ℕ → Type 0
HasTail d h n position buf =
    (j : ℕ)
    → position + n ≤ first_sector position * 512 + j
    → first_sector position * 512 + j < (last_sector n position + 1) * 512
    → first_sector position * 512 + j < h.num_bytes
    → byte_at buf j ≡ file_byte d h (first_sector position * 512 + j)

-- The first sector, as far as the file goes.
abbrev pub HasFirst : Disk → FileHeader → ℕ → List ℕ → Type 0
HasFirst d h position buf =
    (j : ℕ)
    → j < 512
    → first_sector position * 512 + j < h.num_bytes
    → byte_at buf j ≡ file_byte d h (first_sector position * 512 + j)

-- A byte of the last sector, once that is loaded.
in_last :
    (d : Disk) (h : FileHeader) (n position : ℕ)
    → Spans n position
    → (buf buf' : List ℕ) (j : ℕ)
    → Loaded d h
        (last_sector n position)
        ((last_sector n position - first_sector position) * 512)
        buf
        buf'
    → (last_sector n position - first_sector position) * 512 ≤ j
    → first_sector position * 512 + j < (last_sector n position + 1) * 512
    → first_sector position * 512 + j < h.num_bytes
    → byte_at buf' j ≡ file_byte d h (first_sector position * 512 + j)
in_last d h n position g buf buf' j l lo hi inside =
    let off = (last_sector n position - first_sector position) * 512 in
    ap (byte_at buf') {x = j} {y = off + (j - off)} (omega arith)
    ∙ l.loaded (j - off) (omega (arith, g.ordered)) (omega (arith, g.ordered))
    ∙ ap (file_byte d h) {x = last_sector n position * 512 + (j - off)}
        {y = first_sector position * 512 + j} (omega (arith, g.ordered))

module _ (d : Disk) (h : FileHeader) (n position : ℕ) (v : IsStored d h) (g : Spans n position)
    (fit : position + n ≤ h.num_bytes) (some_bytes : 0 < n) where
  pub fetch_first-HasHead :
      (buf : List ℕ)
      → 512 ≤ length buf
      → (buf' : List ℕ) × (fetch_first buf h d position ≡ ok (buf', d))
        × (length buf' ≡ length buf)
        × HasHead d h position buf'
        × (first_aligned position ≡ false → HasFirst d h position buf')
  unfolding fetch_first
  fetch_first-HasHead buf room = elim (Bool-cases (first_aligned position)) [
    | inl aligned ↦ (
      buf,
      rw aligned,
      refl,
      (λ j hj. absurd (omega (arith, (==_iff position (first_sector position * 512)).0 aligned))),
      (λ e. cc),
    )
    | inr off_start ↦
        let (buf', e, l) =
          read_into-Loaded buf 0 h d (first_sector position) v (omega arith)
            (omega (arith, g.starts, fit, some_bytes)) in
        (
          buf',
          rw off_start e,
          l.same_length,
          (λ j hj.
              ap (byte_at buf') {x = j} {y = 0 + j} (omega arith)
              ∙ l.loaded j (omega (arith, g.start_near)) (omega arith)),
          (λ _ j hj inside.
              ap (byte_at buf') {x = j} {y = 0 + j} (omega arith) ∙ l.loaded j hj inside),
        )
  ]

  -- When the last sector is not read, the tail is there already, or empty.
  tail_there :
      (buf : List ℕ)
      → (not (last_aligned n position)
          && (not (first_sector position == last_sector n position) || first_aligned position))
        ≡ false
      → (first_aligned position ≡ false → HasFirst d h position buf)
      → HasTail d h n position buf
  tail_there buf skip first j lo hi inside = elim (Bool-cases (last_aligned n position)) [
    | inl whole ↦
        absurd (omega (arith, (==_iff (position + n) ((last_sector n position + 1) * 512)).0 whole))
    | inr part ↦ elim (Bool-cases (first_sector position == last_sector n position)) [
      | inl one ↦
          first (ground arith) j
            (omega (arith, (==_iff (first_sector position) (last_sector n position)).0 one)) inside
      | inr more ↦ absurd (ground arith)
    ]
  ]

  pub fetch_last-HasTail :
      (buf : List ℕ)
      → (last_sector n position - first_sector position) * 512 + 512 ≤ length buf
      → HasHead d h position buf
      → (first_aligned position ≡ false → HasFirst d h position buf)
      → (buf' : List ℕ) × (fetch_last buf h d n position ≡ ok (buf', d))
        × (length buf' ≡ length buf)
        × HasHead d h position buf'
        × HasTail d h n position buf'
  unfolding fetch_last
  fetch_last-HasTail buf room head first =
      elim (Bool-cases (
        not (last_aligned n position)
        && (not (first_sector position == last_sector n position) || first_aligned position))) [
          | inr skip ↦ (buf, rw skip, refl, head, tail_there buf skip first)
          | inl again ↦
              let last = last_sector n position in
              let off = (last - first_sector position) * 512 in
              let (buf', e, l) =
                read_into-Loaded buf off h d last v room (omega (arith, g.end_near, fit)) in
              (
                buf',
                rw again e,
                l.same_length,
                (λ j hj. elim (dec_lt j off) [
                  | yes lt ↦ l.before j lt ∙ head j hj
                  | no ge ↦
                      in_last d h n position g buf buf' j l (omega arith) (omega (arith, g.ends))
                        (omega arith)
                ]),
                (λ j lo hi inside.
                    in_last d h n position g buf buf' j l (omega (arith, g.end_near)) hi inside),
              )
        ]
