-- ===== src/AddressSpace/Create.antt =====
-- The constructor and the destructor of userprog/addrspace.cc as a whole.
use os_project2_nach_os.Base.{
  ℕ, ◌+◌, ◌*◌, ◌/◌, ◌≤◌, ◌<◌, ◌≡◌, refl, sym, ap, ◌∙◌, subst, true, false, List, [], ◌∷◌, Option,
  none, some, Result, ok, err, wild_access, ◌>>=◌, ltb, length, ge→ltb, lt→ltb, ◌==◌, arith,
  Bool-cases, inl, inr,
}
use os_project2_nach_os.Base.Slices.{byte_at}
use os_project2_nach_os.Utility.{div_round_up}
use os_project2_nach_os.BitMap.{BitMap}
use os_project2_nach_os.BitMap.Sets.{marked, IsValid}
use os_project2_nach_os.BitMap.Search.{
  clear_bits, count_clear, count_clear-le, num_clear-clear_bits,
}
use os_project2_nach_os.FileHeader.Slots.{elem, Owned, Takes, Takes-free, Takes-Owned}
use os_project2_nach_os.AddressSpace.{
  NoffHeader, Segment, is_positive, noff_magic, header_of, AddrSpace, set_up, copy_in, copy_segment,
  program_size, create, release,
}
use os_project2_nach_os.AddressSpace.Frames.{entries, AreBelow, set_up-Takes, release-restores}
use os_project2_nach_os.AddressSpace.Load.{HasPages, AreFrames, copy_in-Loaded}

-- A program of code at address 0 and without initialised data.
pub record IsPlainProgram (h : NoffHeader) : Type 0 where
  pub known : (h.magic == noff_magic) ≡ true
  pub origin : h.code.virtual_addr ≡ 0
  pub has_code : is_positive h.code.size ≡ true
  pub no_data : is_positive h.init_data.size ≡ false

-- The space of a program, the frames that are then in use, and memory.
pub record IsLoaded (garbage : ℕ → ℕ) (file : List ℕ) (frames : BitMap) (memory : List ℕ)
    (space : AddrSpace) (frames' : BitMap) (memory' : List ℕ) : Type 0 where
  pub owned : List ℕ
  pub table : space.page_table ≡ entries 0 owned
  pub pages : space.num_pages ≡ length owned
  pub enough : length owned ≡ div_round_up (program_size (header_of garbage file)) 512
  pub takes : Takes owned frames frames'
  pub code : HasPages file (header_of garbage file).code.in_file_addr owned memory'
  pub others : (a : ℕ) → marked frames (a / 512) ≡ true → byte_at memory' a ≡ byte_at memory a

Owned-AreFrames :
    (m : BitMap) (k n : ℕ) (fs : List ℕ) → k * 512 ≤ n → AreBelow k fs → Owned m fs → AreFrames n fs
Owned-AreFrames m k n [] le low own = tt
Owned-AreFrames m k n (f ∷ fs) le low own =
    let lt = low.0 in (omega (arith, lt, le), own.2, Owned-AreFrames m k n fs le low.1 own.3)

not_taken :
    (fs : List ℕ) (m m' : BitMap) (j : ℕ) → Takes fs m m' → marked m j ≡ true → elem j fs ≡ false
not_taken fs m m' j t used = elim (Bool-cases (elem j fs)) [
  | inl e ↦ let free = Takes-free t j e in absurd (let z : ⊥ = cc in z)
  | inr e ↦ e
]

pub create-IsLoaded :
    (garbage : ℕ → ℕ) (file : List ℕ) (frames : BitMap) (memory : List ℕ) (k : ℕ)
    → IsValid frames
    → k ≤ frames.num_bits
    → k * 512 ≤ length memory
    → IsPlainProgram (header_of garbage file)
    → div_round_up (program_size (header_of garbage file)) 512 ≤ count_clear (marked frames) 0 k
    → (space : AddrSpace) × (frames' : BitMap) × (memory' : List ℕ) × (create garbage
          (some file)
          frames
          memory
        ≡ ok (some space, frames', memory'))
      × IsLoaded garbage file frames memory space frames' memory'
unfolding create
create-IsLoaded garbage file frames memory k v le size plain room =
    let h = header_of garbage file in
    let n = div_round_up (program_size h) 512 in
    let (fs, frames', set, t, len, low) = set_up-Takes n 0 k frames v le room in
    let fits : n ≤ clear_bits frames =
      omega (arith, room, count_clear-le (marked frames) 0 k frames.num_bits le) in
    let own = Takes-Owned t in
    let are : AreFrames (length memory) fs =
      Owned-AreFrames frames' k (length memory) fs size low own in
    let (memory', copied, loaded) = copy_in-Loaded file h.code 0 fs memory plain.origin are in
    (
      record { page_table = entries 0 fs; num_pages = n },
      frames',
      memory',
      rw (
        plain.known,
        num_clear-clear_bits frames v,
        ge→ltb _ _ fits,
        set,
        plain.has_code,
        copied,
        plain.no_data,
      ),
      record {
        owned = fs;
        table = refl;
        pages = sym len;
        enough = len;
        takes = t;
        code =
            subst (λ p. HasPages file p fs memory')
              (let z : h.code.in_file_addr + 0 * 512 ≡ h.code.in_file_addr = omega arith in z)
              loaded.has;
        others = λ a used. loaded.kept a (not_taken fs frames frames' (a / 512) t used);
      },
    )

-- Without pages nothing is copied.
copy_segment-none :
    (file : List ℕ) (g : Segment) (memory : List ℕ) → copy_segment file g [] memory ≡ ok memory
unfolding copy_in
copy_segment-none file g memory = elim (Bool-cases (is_positive g.size)) [
  | inl e ↦ rw (e)
  | inr e ↦ rw (e)
]

pub create_too_large :
    (garbage : ℕ → ℕ) (file : List ℕ) (frames : BitMap) (memory : List ℕ)
    → IsValid frames
    → ((header_of garbage file).magic == noff_magic) ≡ true
    → clear_bits frames < div_round_up (program_size (header_of garbage file)) 512
    → create garbage (some file) frames memory ≡ err wild_access
unfolding create set_up
create_too_large garbage file frames memory v known few = rw (
  known,
  num_clear-clear_bits frames v,
  lt→ltb _ _ few,
  copy_segment-none file (header_of garbage file).code memory,
  copy_segment-none file (header_of garbage file).init_data memory,
)

-- What a constructor that ends has made: a page table of frames that were free.
record IsMade (frames : BitMap) (space : AddrSpace) (frames' : BitMap) : Type 0 where
  owned : List ℕ
  table : space.page_table ≡ entries 0 owned
  takes : Takes owned frames frames'

abbrev MadeBy : BitMap → Result (Option AddrSpace × BitMap × List ℕ) → Type 0
MadeBy frames (err fault) = Unit {0}
MadeBy frames (ok (none, frames', memory')) = Unit {0}
MadeBy frames (ok (some space, frames', memory')) = IsMade frames space frames'

>>=-MadeBy :
    (frames : BitMap) (first : Result (List ℕ))
    (next : List ℕ → Result (Option AddrSpace × BitMap × List ℕ))
    → ((x : List ℕ) → MadeBy frames (next x))
    → MadeBy frames (first >>= next)
>>=-MadeBy frames (err fault) next holds = tt
>>=-MadeBy frames (ok x) next holds = holds x

create-MadeBy :
    (garbage : ℕ → ℕ) (file : List ℕ) (frames : BitMap) (memory : List ℕ)
    → IsValid frames
    → MadeBy frames (create garbage (some file) frames memory)
unfolding create
create-MadeBy garbage file frames memory v =
    let h = header_of garbage file in
    let n = div_round_up (program_size h) 512 in
    elim (Bool-cases (h.magic == noff_magic)) [
      | inr unknown ↦ rw (unknown) tt
      | inl known ↦ elim (Bool-cases (ltb (clear_bits frames) n)) [
        | inl few ↦
            subst (MadeBy frames)
              (sym (create_too_large garbage file frames memory v known (ground (arith, few)))) tt
        | inr room ↦
            let (fs, m, set, t, len, low) =
              set_up-Takes n 0 frames.num_bits frames v (omega arith) (ground (arith, room)) in
            rw (known, num_clear-clear_bits frames v, room, set)
              (>>=-MadeBy frames (copy_segment file h.code (entries 0 fs) memory) _ (λ x.
                >>=-MadeBy frames (copy_segment file h.init_data (entries 0 fs) x) _
                  (λ y. record { owned = fs; table = refl; takes = t })))
      ]
    ]

-- The destructor of a space that the constructor has made, of whatever program, gives its frames
-- back: it ends without a fault, the bitmap is valid and of its size, and each frame is in use
-- exactly if it was before the constructor.
pub create-release :
    (garbage : ℕ → ℕ) (file memory memory' : List ℕ) (frames frames' : BitMap) (space : AddrSpace)
    → IsValid frames
    → create garbage (some file) frames memory ≡ ok (some space, frames', memory')
    → (frames'' : BitMap) × (release space.page_table frames' ≡ ok frames'')
      × IsValid frames''
      × (frames''.num_bits ≡ frames.num_bits)
      × ((j : ℕ) → marked frames'' j ≡ marked frames j)
create-release garbage file memory memory' frames frames' space v made =
    let l : IsMade frames space frames' =
      subst (MadeBy frames) made (create-MadeBy garbage file frames memory v) in
    let (m, done, valid, size, bits) = release-restores l.owned 0 frames frames' v l.takes in
    (m, ap (λ t. release t frames') l.table ∙ done, valid, size, bits)
