-- ===== src/FileHeader/Allocate.antt =====
-- FileHeader::Allocate: the space check, the sectors that it takes, and the array's bound.
use os_project2_nach_os.Base.{
  ℕ, zero, suc, ◌+◌, ◌≤◌, ◌<◌, ◌≡◌, refl, ap, true, false, List, [], ◌∷◌, ok, err, wild_access,
  length, length-set, ltb, lt→ltb, ge→ltb, Bool-cases, inl, inr, arith,
}
use os_project2_nach_os.Utility.{div_round_up}
use os_project2_nach_os.BitMap.{BitMap}
use os_project2_nach_os.BitMap.Sets.{IsValid}
use os_project2_nach_os.BitMap.Search.{
  clear_bits, num_clear-clear_bits, clear_bits-Sets, find_free_slot-some,
}
use os_project2_nach_os.FileHeader.{FileHeader, sector_size, sized, allocate_each, allocate}
use os_project2_nach_os.FileHeader.Slots.{
  Holds, splice, splice-Holds, length-splice, Takes, done, take,
}

-- The header after the stores of the sectors ss from index i on.
abbrev with_sectors : FileHeader → ℕ → List ℕ → FileHeader
with_sectors h i ss = record h { data_sectors = splice h.data_sectors i ss }

allocate_each-Takes :
    (rounds i : ℕ) (h : FileHeader) (m : BitMap)
    → IsValid m
    → rounds ≤ clear_bits m
    → i + rounds ≤ length h.data_sectors
    → (ss : List ℕ) × (m' : BitMap) × (allocate_each rounds i h m ≡ ok (with_sectors h i ss, m'))
      × Takes ss m m'
      × (length ss ≡ rounds)
      × (clear_bits m ≡ clear_bits m' + rounds)
unfolding allocate_each
allocate_each-Takes zero i h m v room fits = ([], m, refl, done, refl, omega arith)
allocate_each-Takes (suc rounds) i h m v room fits =
    let (s, m₁, e, hs, clr, st) = find_free_slot-some m v (omega arith) in
    let (ss, m', e', t, len, gone) =
      allocate_each-Takes rounds (i + 1) (with_sectors h i (s ∷ [])) m₁ st.valid
        (omega (arith, clear_bits-Sets s hs clr st))
        (omega (arith, length-set h.data_sectors i s)) in
    (
      s ∷ ss,
      m',
      rw (e, lt→ltb i (length h.data_sectors) (omega arith)) e',
      take hs clr st t,
      ap suc len,
      omega (arith, gone, clear_bits-Sets s hs clr st),
    )

allocate_each_overrun :
    (rounds i : ℕ) (h : FileHeader) (m : BitMap)
    → IsValid m
    → rounds ≤ clear_bits m
    → i ≤ length h.data_sectors
    → length h.data_sectors < i + rounds
    → allocate_each rounds i h m ≡ err wild_access
unfolding allocate_each
allocate_each_overrun zero i h m v room le over = absurd (omega arith)
allocate_each_overrun (suc rounds) i h m v room le over =
    let (s, m₁, e, hs, clr, st) = find_free_slot-some m v (omega arith) in
    elim (Bool-cases (ltb i (length h.data_sectors))) [
      | inl more ↦
          rw (e, more)
            (allocate_each_overrun rounds (i + 1) (with_sectors h i (s ∷ [])) m₁ st.valid
              (omega (arith, clear_bits-Sets s hs clr st))
              (rw (length-set h.data_sectors i s) (ground arith))
              (omega (arith, length-set h.data_sectors i s)))
      | inr end ↦ rw (e, end)
    ]

-- With fewer clear bits than the file has sectors, `allocate` returns false and leaves the map.
pub allocate_refuses :
    (h : FileHeader) (m : BitMap) (size : ℕ)
    → IsValid m
    → clear_bits m < div_round_up size sector_size
    → allocate h m size ≡ ok (false, sized h size, m)
unfolding allocate
allocate_refuses h m size v few = rw (num_clear-clear_bits m v, lt→ltb _ _ few)

-- What a successful `allocate` of a file of the given size gives.
pub record Allocated (h : FileHeader) (m : BitMap) (size : ℕ) (h' : FileHeader) (m' : BitMap)
    : Type 0 where
  pub sectors : List ℕ
  pub takes : Takes sectors m m'
  pub holds : Holds h'.data_sectors 0 sectors
  pub counted : length sectors ≡ h'.num_sectors
  pub size_kept : h'.num_bytes ≡ size
  pub rounded : h'.num_sectors ≡ div_round_up size sector_size
  pub same_array : length h'.data_sectors ≡ length h.data_sectors
  pub gone : clear_bits m ≡ clear_bits m' + h'.num_sectors

-- With enough clear bits, and room in `dataSectors`, `allocate` returns true. Its header records
-- the size and lists one sector for each of the file's sectors; each of them was clear, and they
-- are set in the new map, in which nothing else has changed.
pub allocate-Allocated :
    (h : FileHeader) (m : BitMap) (size : ℕ)
    → IsValid m
    → div_round_up size sector_size ≤ clear_bits m
    → div_round_up size sector_size ≤ length h.data_sectors
    → (h' : FileHeader) × (m' : BitMap) × (allocate h m size ≡ ok (true, h', m'))
      × Allocated h m size h' m'
unfolding allocate
allocate-Allocated h m size v room fits =
    let n = div_round_up size sector_size in
    let (ss, m', e, t, len, gone) = allocate_each-Takes n 0 (sized h size) m v room (omega arith) in
    (
      with_sectors (sized h size) 0 ss,
      m',
      rw (num_clear-clear_bits m v, ge→ltb _ _ room, e),
      record {
        sectors = ss;
        takes = t;
        holds = splice-Holds h.data_sectors 0 ss (omega arith);
        counted = len;
        size_kept = refl;
        rounded = refl;
        same_array = length-splice h.data_sectors 0 ss;
        gone = gone;
      },
    )

-- `allocate` does not compare the number of sectors with the size of `dataSectors`. A file of more
-- sectors than the array has, on a disk with that many clear, is written past the array's end.
pub allocate_overruns :
    (h : FileHeader) (m : BitMap) (size : ℕ)
    → IsValid m
    → length h.data_sectors < div_round_up size sector_size
    → div_round_up size sector_size ≤ clear_bits m
    → allocate h m size ≡ err wild_access
unfolding allocate
allocate_overruns h m size v over room = rw (
  num_clear-clear_bits m v,
  ge→ltb _ _ room,
  allocate_each_overrun (div_round_up size sector_size) 0 (sized h size) m v room (omega arith)
      (omega arith),
)
