-- ===== src/AddressSpace/Load.antt =====
-- The loop of userprog/addrspace.cc that copies a segment into the frames of a page table.
use os_project2_nach_os.Base.{
  ℕ, ◌+◌, ◌-◌, ◌*◌, ◌/◌, ◌≤◌, ◌<◌, ◌≡◌, ◌≢◌, refl, sym, ap, subst, ◌∙◌, false, List, [], ◌∷◌, ok,
  length, drop, length-take, length-drop, ltb, ◌==◌, arith, Bool-cases, inl, inr, min,
}
use os_project2_nach_os.Base.Slices.{
  byte_at, slice, paste, length-paste, byte_at-slice, byte_at-paste_before, byte_at-paste_inside,
  byte_at-paste_after,
}
use os_project2_nach_os.FileHeader.Slots.{elem}
use os_project2_nach_os.AddressSpace.{Segment, read_page, copy_in}
use os_project2_nach_os.AddressSpace.Frames.{entries}

-- A frame holds the 512 bytes of the file from a position on, as far as the file goes.
abbrev pub HasPage : List ℕ → ℕ → ℕ → List ℕ → Type 0
HasPage file position f memory =
    (j : ℕ)
    → j < 512
    → position + j < length file
    → byte_at memory (f * 512 + j) ≡ byte_at file (position + j)

abbrev pub HasPages : List ℕ → ℕ → List ℕ → List ℕ → Type 0
HasPages file position [] memory = Unit {0}
HasPages file position (f ∷ fs) memory =
    HasPage file position f memory × HasPages file (position + 512) fs memory

-- The frames lie in memory, and no two are the same.
abbrev pub AreFrames : ℕ → List ℕ → Type 0
AreFrames n [] = Unit {0}
AreFrames n (f ∷ fs) = (f * 512 + 512 ≤ n) × (elem f fs ≡ false) × AreFrames n fs

length-slice-min : (file : List ℕ) (p : ℕ) → length (slice file p 512) ≡ min 512 (length file - p)
length-slice-min file p = omega (arith, length-take 512 (drop p file), length-drop p file)

-- One frame is filled, and the rest of memory stays.
record Filled (file : List ℕ) (p f : ℕ) (memory memory' : List ℕ) : Type 0 where
  has : HasPage file p f memory'
  same_length : length memory' ≡ length memory
  kept : (a : ℕ) → a / 512 ≢ f → byte_at memory' a ≡ byte_at memory a

read_page-Filled :
    (file : List ℕ) (p f : ℕ) (memory : List ℕ)
    → f * 512 + 512 ≤ length memory
    → (memory' : List ℕ) × (read_page file p (f * 512) memory ≡ ok memory')
      × Filled file p f memory memory'
read_page-Filled file p f memory fits =
    let l = length-slice-min file p in
    elim (Bool-cases (length (slice file p 512) == 0)) [
      | inl empty ↦
          let behind : length file ≤ p = ground (arith, empty, l) in
          (
            memory,
            rw (empty),
            record {
              has = λ j lt inside. absurd (omega (arith, behind));
              same_length = refl;
              kept = λ a ne. refl;
            },
          )
      | inr some_bytes ↦
          let bs = slice file p 512 in
          let room : f * 512 + length bs ≤ length memory = omega (arith, l, fits) in
          let in_bounds : ltb (length memory) (f * 512 + length bs) ≡ false =
            ground (arith, room) in
          (
            paste memory (f * 512) bs,
            rw (some_bytes, in_bounds),
            record {
              has = λ j lt inside.
                  byte_at-paste_inside memory (f * 512) bs (f * 512 + j) room (omega arith)
                    (omega (arith, l))
                  ∙ ap (byte_at bs) {x = f * 512 + j - f * 512} {y = j} (omega arith)
                  ∙ byte_at-slice file p 512 j lt;
              same_length = length-paste memory (f * 512) bs room;
              kept = λ a ne. elim (Bool-cases (ltb a (f * 512))) [
                | inl low ↦ byte_at-paste_before memory (f * 512) bs a room (ground (arith, low))
                | inr high ↦
                    let ge : f * 512 ≤ a = ground (arith, high) in
                    let past : f * 512 + 512 ≤ a = omega (arith, ge, ne) in
                    byte_at-paste_after memory (f * 512) bs a room (omega (arith, past, l))
              ];
            },
          )
    ]

-- The frames fs are filled one after the other, and the rest of memory stays.
pub record Loaded (file : List ℕ) (p : ℕ) (fs memory memory' : List ℕ) : Type 0 where
  pub has : HasPages file p fs memory'
  pub same_length : length memory' ≡ length memory
  pub kept : (a : ℕ) → elem (a / 512) fs ≡ false → byte_at memory' a ≡ byte_at memory a

not_elem : (a f : ℕ) (fs : List ℕ) → elem a (f ∷ fs) ≡ false → (a ≢ f) × (elem a fs ≡ false)
not_elem a f fs h = ground arith

-- Page by page; the first frame is not among the later ones, so it keeps what it got.
pub copy_in-Loaded :
    (file : List ℕ) (s : Segment) (i : ℕ) (fs memory : List ℕ)
    → s.virtual_addr ≡ 0
    → AreFrames (length memory) fs
    → (memory' : List ℕ) × (copy_in file s i (entries i fs) memory ≡ ok memory')
      × Loaded file (s.in_file_addr + i * 512) fs memory memory'
unfolding copy_in
copy_in-Loaded file s i [] memory origin frames =
    (memory, refl, record { has = tt; same_length = refl; kept = λ a out. refl })
copy_in-Loaded file s i (f ∷ fs) memory origin frames =
    let p : ℕ = s.in_file_addr + i * 512 in
    let (m1, e, one) = read_page-Filled file p f memory frames.0 in
    let (m2, e', later) =
      copy_in-Loaded file s (i + 1) fs m1 origin
        (subst (λ n. AreFrames n fs) (sym one.same_length) frames.2) in
    let next : s.in_file_addr + (i + 1) * 512 ≡ p + 512 = omega arith in
    let at : s.virtual_addr + f * 512 ≡ f * 512 = omega (arith, origin) in
    (
      m2,
      rw (at, e) e',
      record {
        has = (
          λ j lt inside.
              later.kept (f * 512 + j)
                (ap (λ x. elem x fs) {x = (f * 512 + j) / 512} {y = f} (omega arith) ∙ frames.1)
              ∙ one.has j lt inside,
          subst (λ q. HasPages file q fs m2) next later.has,
        );
        same_length = later.same_length ∙ one.same_length;
        kept = λ a out.
            let (ne, rest) = not_elem (a / 512) f fs out in later.kept a rest ∙ one.kept a ne;
      },
    )
