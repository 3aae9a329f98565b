-- ===== src/FileHeader/Examples.antt =====
-- Allocation at concrete inputs.
use os_project2_nach_os.Base.{◌≡◌, refl, true, [], ◌∷◌, replicate, ok, err, wild_access, arith}
use os_project2_nach_os.Utility.{div_round_up}
use os_project2_nach_os.BitMap.{BitMap, find_free_slot, num_clear, mark, test}
use os_project2_nach_os.BitMap.Sets.{IsValid}
use os_project2_nach_os.BitMap.Search.{clear_bits, count_clear}
use os_project2_nach_os.FileHeader.{FileHeader, sector_size, allocate}
use os_project2_nach_os.FileHeader.Allocate.{Allocated, allocate-Allocated, allocate_overruns}
use os_project2_nach_os.FileHeader.Deallocate.{Owns}

abbrev fresh : FileHeader
fresh = record { num_bytes = 0; num_sectors = 0; data_sectors = replicate 126 0 }

-- Forty bits in two words: 0, 2 and 33 are set.
abbrev forty : BitMap
forty = record { num_bits = 40; num_words = 2; map = 5 ∷ 2 ∷ [] }

-- The map of a whole disk, all clear.
abbrev whole_disk : BitMap
whole_disk = record { num_bits = 1024; num_words = 32; map = replicate 32 0 }

forty-IsValid : IsValid forty
unfolding div_round_up
forty-IsValid = record { counted = refl; stored = refl; fits = omega arith }

whole_disk-IsValid : IsValid whole_disk
unfolding div_round_up
whole_disk-IsValid = record { counted = refl; stored = refl; fits = omega arith }

clear_bits-forty : clear_bits forty ≡ 37
unfolding count_clear
clear_bits-forty = refl

clear_bits-whole_disk : clear_bits whole_disk ≡ 1024
unfolding count_clear
clear_bits-whole_disk = refl

two_sectors : div_round_up 1000 sector_size ≡ 2
unfolding div_round_up
two_sectors = refl

-- A thousand bytes take the two lowest sectors that are clear.
allocate-forty :
    allocate fresh forty 1000
    ≡ ok (
      true,
      record { num_bytes = 1000; num_sectors = 2; data_sectors = 1 ∷ 3 ∷ replicate 124 0 },
      record forty { map = 15 ∷ 2 ∷ [] },
    )
unfolding allocate num_clear test find_free_slot mark div_round_up
allocate-forty = refl

abbrev made :
    (h' : FileHeader) × (m' : BitMap) × (allocate fresh forty 1000 ≡ ok (true, h', m'))
    × Allocated fresh forty 1000 h' m'
made =
    allocate-Allocated fresh forty 1000 forty-IsValid (omega (arith, two_sectors, clear_bits-forty))
      (omega (arith, two_sectors))

allocate-Allocated_example :
    (h' : FileHeader) × (m' : BitMap) × (allocate fresh forty 1000 ≡ ok (true, h', m'))
    × Allocated fresh forty 1000 h' m'
allocate-Allocated_example =
    allocate-Allocated fresh forty 1000 forty-IsValid (omega (arith, two_sectors, clear_bits-forty))
      (omega (arith, two_sectors))

forty_sectors : div_round_up 20000 sector_size ≡ 40
unfolding div_round_up
forty_sectors = refl

many_sectors : div_round_up 65000 sector_size ≡ 127
unfolding div_round_up
many_sectors = refl

allocate_overruns_example : allocate fresh whole_disk 65000 ≡ err wild_access
allocate_overruns_example =
    allocate_overruns fresh whole_disk 65000 whole_disk-IsValid (omega (arith, many_sectors))
      (omega (arith, many_sectors, clear_bits-whole_disk))

abbrev two : FileHeader
two = record { num_bytes = 1000; num_sectors = 2; data_sectors = 2 ∷ 33 ∷ [] }

two-Owns : Owns two forty
two-Owns = record {
  sectors = 2 ∷ 33 ∷ [];
  holds = (refl, (refl, tt));
  counted = refl;
  owned = (omega arith, refl, refl, (omega arith, refl, refl, tt));
}
