-- ===== src/AddressSpace/Examples.antt =====
-- Examples of address spaces: a small program with a bitmap of eight frames, the first in use, and a
-- memory that has only four of them.
use os_project2_nach_os.Base.{
  ℕ, ◌*◌, ◌≡◌, ◌≤◌, refl, List, [], ◌∷◌, ◌++◌, some, ok, length, replicate, length-replicate, arith,
}
use os_project2_nach_os.Utility.{div_round_up}
use os_project2_nach_os.BitMap.{BitMap}
use os_project2_nach_os.BitMap.Sets.{marked, IsValid}
use os_project2_nach_os.BitMap.Search.{count_clear}
use os_project2_nach_os.AddressSpace.{
  header_of, AddrSpace, new_entry, copy_in, copy_segment, program_size, create, release,
}
use os_project2_nach_os.AddressSpace.Create.{
  IsPlainProgram, IsLoaded, create-IsLoaded, create-release,
}

abbrev no_garbage : ℕ → ℕ
no_garbage i = 0

-- Code of eight bytes at address 0, in the file from byte 40 on.
abbrev program : List ℕ
program =
    173
    ∷ 223
    ∷ 186
    ∷ 0
    ∷ 0
    ∷ 0
    ∷ 0
    ∷ 0
    ∷ 40
    ∷ 0
    ∷ 0
    ∷ 0
    ∷ 8
    ∷ 0
    ∷ 0
    ∷ 0
    ∷ (replicate 24 0 ++ (1 ∷ 2 ∷ 3 ∷ 4 ∷ 5 ∷ 6 ∷ 7 ∷ 8 ∷ []))

abbrev eight_frames : BitMap
eight_frames = record { num_bits = 8; num_words = 1; map = 1 ∷ [] }

eight_frames-IsValid : IsValid eight_frames
unfolding div_round_up
eight_frames-IsValid = record { counted = refl; stored = refl; fits = omega arith }

program-IsPlainProgram : IsPlainProgram (header_of no_garbage program)
program-IsPlainProgram = record { known = refl; origin = refl; has_code = refl; no_data = refl }

three_pages : div_round_up (program_size (header_of no_garbage program)) 512 ≡ 3
unfolding div_round_up
three_pages = refl

three_free : count_clear (marked eight_frames) 0 4 ≡ 3
unfolding count_clear
three_free = refl

abbrev the_memory : List ℕ
the_memory = replicate 2048 0

enough_memory : 4 * 512 ≤ length the_memory
enough_memory = let l = length-replicate {A = ℕ} 2048 0 in omega (arith, l)

enough_frames :
    div_round_up (program_size (header_of no_garbage program)) 512
    ≤ count_clear (marked eight_frames) 0 4
enough_frames = let a = three_pages in let b = three_free in omega (arith, a, b)

-- A segment of the size -1 is not copied.
negative_size :
    copy_segment program
      (record { virtual_addr = 0; in_file_addr = 0; size = 4294967295 })
      (new_entry 0 0 ∷ [])
      (7 ∷ [])
    ≡ ok (7 ∷ [])
unfolding copy_in
negative_size = refl

-- Only one frame is free.
abbrev one_frame : BitMap
one_frame = record { num_bits = 8; num_words = 1; map = 127 ∷ [] }

loaded :
    (space : AddrSpace) × (frames' : BitMap) × (memory' : List ℕ) × (create no_garbage
        (some program)
        eight_frames
        the_memory
      ≡ ok (some space, frames', memory'))
    × IsLoaded no_garbage program eight_frames the_memory space frames' memory'
loaded =
    create-IsLoaded no_garbage program eight_frames the_memory 4 eight_frames-IsValid (omega arith)
      enough_memory program-IsPlainProgram enough_frames

create-release_example :
    (frames'' : BitMap) × (release loaded.0.page_table loaded.1 ≡ ok frames'')
    × IsValid frames''
    × (frames''.num_bits ≡ 8)
    × ((j : ℕ) → marked frames'' j ≡ marked eight_frames j)
create-release_example =
    create-release no_garbage program the_memory loaded.2 eight_frames loaded.1 loaded.0
      eight_frames-IsValid loaded.3
