-- ===== src/FileSystem/Create.antt =====
-- FileSystem::Create: what it refuses, and that the file it makes shares no sector with another.
use os_project2_nach_os.Base.{
  ℕ, ◌+◌, ◌≤◌, ◌<◌, ◌≡◌, ◌≢◌, refl, ap, ◌∙◌, sym, Bool, true, false, List, Option, none, some, ok,
  length, ◌||◌, ltb, ltb→lt, ltb_false→le, arith, Bool-cases, Option-cases, ◌⊎◌, inl, inr,
}
use os_project2_nach_os.Utility.{div_round_up}
use os_project2_nach_os.BitMap.{BitMap, find_free_slot}
use os_project2_nach_os.BitMap.Sets.{marked, Sets}
use os_project2_nach_os.BitMap.Search.{
  FreeSlot, full, slot, find_free_slot-FreeSlot, clear_bits, clear_bits-Sets, all_set_count,
}
use os_project2_nach_os.FileHeader.{FileHeader, sector_size}
use os_project2_nach_os.FileHeader.Slots.{elem}
use os_project2_nach_os.FileHeader.Allocate.{allocate-Allocated, allocate_refuses}
use os_project2_nach_os.Directory.{Directory, find, add}
use os_project2_nach_os.Directory.Lookup.{same_name}
use os_project2_nach_os.Directory.Names.{IsFull}
use os_project2_nach_os.Directory.Update.{Added, add-Added, present, full as full_table, added}
use os_project2_nach_os.FileSystem.{FileSystem, create, create_at}
use os_project2_nach_os.FileSystem.Grow.{
  NewName, grown, grown-IsSound, old_header, write_back_self, new_free, new_marked, new_extents,
}
use os_project2_nach_os.FileSystem.Extents.{IsSound, extents}

-- The sectors that a new file of the size takes, with its header's.
abbrev pub needed : ℕ → ℕ
needed size = 1 + div_round_up size sector_size

-- The outcomes of Create.
pub data Made (system : List ℕ) (fs : FileSystem) (name : List ℕ) (size : ℕ)
    : Bool × FileSystem → Type 0 where
  refused :
      (find fs.directory name ≢ none)
        ⊎ IsFull fs.directory.table
        ⊎ (clear_bits fs.free_map < needed size)
      → Made system fs name size (false, fs)
  made :
      {fs' : FileSystem} {sector : ℕ}
      → find fs.directory name ≡ none
      → ¬ IsFull fs.directory.table
      → clear_bits fs.free_map ≡ clear_bits fs'.free_map + needed size
      → IsSound system fs'
      → ((x : ℕ) → elem x (extents fs'.headers sector) ≡ true → marked fs.free_map x ≡ false)
      → ((x : ℕ)
          → marked fs'.free_map x ≡ (elem x (extents fs'.headers sector) || marked fs.free_map x))
      → find fs'.directory name ≡ some sector
      → (fs'.headers sector).num_bytes ≡ size
      → ((other : List ℕ)
          → same_name name other ≡ false
          → find fs'.directory other ≡ find fs.directory other)
      → ((other : List ℕ) (s : ℕ) → find fs.directory other ≡ some s → fs'.headers s ≡ fs.headers s)
      → fs'.file_table ≡ fs.file_table
      → Made system fs name size (true, fs')

module _ {system : List ℕ} {fs : FileSystem} (w : IsSound system fs) (name : List ℕ) (size : ℕ)
    (fresh : FileHeader) (room : div_round_up size sector_size ≤ length fresh.data_sectors)
    (new : find fs.directory name ≡ none) {sector : ℕ} {m₁ : BitMap}
    (low : sector < fs.free_map.num_bits) (clr : marked fs.free_map sector ≡ false)
    (st : Sets fs.free_map sector true m₁) where
  add_cases :
      {r : Bool × Directory}
      → add fs.directory name sector ≡ r
      → Added fs.directory name sector r
      → (r' : Bool × FileSystem) × (create_at fresh name size sector m₁ fs ≡ ok r')
        × Made system fs name size r'
  unfolding create_at
  add_cases e (present h) = absurd (h new)
  add_cases e (full_table h f) = ((false, fs), rw e, refused (inr (inl f)))
  add_cases e (added {d'} h nf there others dist) =
      elim (Bool-cases (ltb (clear_bits m₁) (div_round_up size sector_size))) [
        | inl few ↦ (
          (false, fs),
          rw (e, allocate_refuses fresh m₁ size st.valid (ltb→lt _ _ few)),
          refused (inr (inr (omega (arith, clear_bits-Sets sector low clr st, ltb→lt _ _ few)))),
        )
        | inr enough ↦
            let (hdr, m', e', a) =
              allocate-Allocated fresh m₁ size st.valid (ltb_false→le _ _ enough) room in
            let n : NewName fs.directory name sector d' = record {
              there = there;
              others = others;
              distinct = dist;
            } in
            (
              (true, grown fs sector hdr d' m'),
              rw (e, e'),
              made new nf (omega (arith, clear_bits-Sets sector low clr st, a.gone, a.rounded))
                  (grown-IsSound w low clr st a n (omega (arith, a.rounded, a.same_array, room)))
                  (λ x h.
                    new_free clr st a x (cc (h, ap (elem x) (new_extents clr st a fs.headers))))
                  (λ x.
                    new_marked clr st a x
                    ∙ ap (λ ss. elem x ss || marked fs.free_map x)
                        (sym (new_extents clr st a fs.headers)))
                  there
                  (ap (λ x. x.num_bytes) (write_back_self fs.headers sector hdr) ∙ a.size_kept)
                  others
                  (λ other s f.
                    old_header w low clr st a n (omega (arith, a.rounded, a.same_array, room)) other
                      s f)
                  refl,
            )
      ]

slot_cases :
    {system : List ℕ} {fs : FileSystem} (w : IsSound system fs) (name : List ℕ) (size : ℕ)
    (fresh : FileHeader)
    → div_round_up size sector_size ≤ length fresh.data_sectors
    → find fs.directory name ≡ none
    → {r : Option ℕ × BitMap} → find_free_slot fs.free_map ≡ ok r
    → FreeSlot fs.free_map 0 r
    → (r' : Bool × FileSystem) × (create fresh name size fs ≡ ok r') × Made system fs name size r'
unfolding create
slot_cases {fs = fs} w name size fresh room new e (full all) = (
  (false, fs),
  rw (create, new, e),
  refused (
      inr (
        inr (
          omega (
            arith,
            all_set_count (marked fs.free_map) 0 fs.free_map.num_bits
                (λ j hi hj. all j hi (omega arith)),
          )))),
)
slot_cases {fs = fs} w name size fresh room new e (slot {s} hi low clr all st) =
    let (r', e', c) =
      add_cases w name size fresh room new low clr st refl (add-Added fs.directory name s) in
    (r', rw (create, new, e) e', c)

-- In a sound file system, with room in a header for the sectors of the size, `create` ends without
-- a fault. It refuses a name that the directory has, a full directory, and a size whose sectors,
-- with one for the header, are more than the free ones, and then changes nothing. Otherwise it
-- succeeds: the name is found at a header of that size, every other name is found as before and
-- old headers stay; the sectors of the new file, its header's included, were free, and they are all
-- that is marked beyond what was; so many sectors fewer are free; the table of open files stays;
-- and the file system is sound: the new file shares no sector with another.
pub create-Made :
    {system : List ℕ} {fs : FileSystem}
    → IsSound system fs
    → (name : List ℕ) (size : ℕ) (fresh : FileHeader)
    → div_round_up size sector_size ≤ length fresh.data_sectors
    → (r : Bool × FileSystem) × (create fresh name size fs ≡ ok r) × Made system fs name size r
unfolding create
create-Made {fs = fs} w name size fresh room = elim (Option-cases (find fs.directory name)) [
  | inl new ↦
      let (r, e, fsl) = find_free_slot-FreeSlot fs.free_map w.valid in
      slot_cases w name size fresh room new e fsl
  | inr (s, f) ↦ ((false, fs), rw (create, f), refused (inl (λ h. cc (h, f))))
]
