-- ===== src/FileSystem/Examples.antt =====
-- The file system at concrete inputs.
use os_project2_nach_os.Base.{
  ℕ, zero, suc, subst, ap, ◌≡◌, refl, Bool, true, List, [], ◌∷◌, none, some, ok, replicate, arith,
}
use os_project2_nach_os.Base.CString.{strncmp_eq, strncpy}
use os_project2_nach_os.Utility.{div_round_up}
use os_project2_nach_os.BitMap.{mark, test, find_free_slot, num_clear}
use os_project2_nach_os.BitMap.Sets.{marked}
use os_project2_nach_os.FileHeader.Slots.{elem}
use os_project2_nach_os.FileHeader.{FileHeader, allocate}
use os_project2_nach_os.Directory.{DirectoryEntry, find, find_index, matches, add, place, init}
use os_project2_nach_os.Directory.Update.{init_empty}
use os_project2_nach_os.FileSystem.{
  FileSystem, create, create_at, remove, write_back, open_file, open_typed, get_idx_free_slot,
}
use os_project2_nach_os.FileSystem.Extents.{IsSound}
use os_project2_nach_os.FileSystem.Create.{Made, made, refused, create-Made}
use os_project2_nach_os.FileSystem.Remove.{Gone, remove-Gone}
use os_project2_nach_os.FileSystem.Undo.{Agrees, create-remove}

-- A header as `new` finds it, and a directory of two entries.
abbrev fresh : FileHeader
fresh = record { num_bytes = 9; num_sectors = 9; data_sectors = replicate 126 7 }

abbrev garbage_entry : DirectoryEntry
garbage_entry = record { in_use = true; sector = 3; name = replicate 10 255 }

-- Forty sectors; 0 and 1 are the system's.
abbrev empty_disk : FileSystem
empty_disk = record {
  file_table = replicate 100 none;
  free_map = record { num_bits = 40; num_words = 2; map = 3 ∷ 0 ∷ [] };
  directory = init (garbage_entry ∷ garbage_entry ∷ []);
  headers = λ s. fresh;
}

abbrev system : List ℕ
system = 0 ∷ 1 ∷ []

empty_find : (name : List ℕ) → find empty_disk.directory name ≡ none
empty_find = (init_empty (garbage_entry ∷ garbage_entry ∷ [])).0

reserved_first : (x : ℕ) → elem x system ≡ true → marked empty_disk.free_map x ≡ true
reserved_first zero e = refl
reserved_first (suc zero) e = refl
reserved_first (suc (suc x)) e = absurd (ground arith)

empty_disk-IsSound : IsSound system empty_disk
unfolding div_round_up
empty_disk-IsSound = record {
  valid = record { counted = refl; stored = refl; fits = omega arith };
  distinct = (init_empty (garbage_entry ∷ garbage_entry ∷ [])).1;
  stored = λ name s f. cc (f, empty_find name);
  owned = λ name s f. cc (f, empty_find name);
  disjoint = λ a b s t f g ne x e. cc (f, empty_find a);
  reserved = reserved_first;
  apart = λ name s f x e. cc (f, empty_find name);
}

-- "ab"
abbrev ab : List ℕ
ab = b'a' ∷ b'b' ∷ []

-- The header of "ab" is in sector 2, its data in 3 and 4.
abbrev one_file : FileSystem
one_file = record empty_disk {
  free_map = record { num_bits = 40; num_words = 2; map = 31 ∷ 0 ∷ [] };
  directory = (add empty_disk.directory ab 2).1;
  headers =
      write_back empty_disk.headers 2
        (record { num_bytes = 600; num_sectors = 2; data_sectors = 3 ∷ 4 ∷ replicate 124 7 });
}

creates : create fresh ab 600 empty_disk ≡ ok (true, one_file)
unfolding create create_at init find find_index add place matches strncmp_eq strncpy find_free_slot
    num_clear allocate test mark div_round_up
creates = refl

create-Made_example :
    (r : Bool × FileSystem) × (create fresh ab 600 empty_disk ≡ ok r)
    × Made system empty_disk ab 600 r
unfolding div_round_up
create-Made_example = create-Made empty_disk-IsSound ab 600 fresh (omega arith)

create-remove_example :
    (fs : FileSystem) × (remove ab one_file ≡ ok (true, fs))
    × IsSound system fs
    × Agrees empty_disk fs
unfolding div_round_up
create-remove_example = create-remove empty_disk-IsSound ab 600 fresh (omega arith) creates

Made-IsSound :
    {r : Bool × FileSystem}
    → r ≡ (true, one_file)
    → Made system empty_disk ab 600 r
    → IsSound system one_file
Made-IsSound e (refused h) = cc e
Made-IsSound e (made new nf count sound free bits there size others hs table) =
    subst (IsSound system) (ap (λ r. r.1) e) sound

one_file-IsSound : IsSound system one_file
unfolding div_round_up
one_file-IsSound =
    let (r, e, c) = create-Made empty_disk-IsSound ab 600 fresh (omega arith) in
    Made-IsSound (cc (e, creates)) c

remove-Gone_example :
    (r : Bool × FileSystem) × (remove ab one_file ≡ ok r) × Gone system one_file ab r
remove-Gone_example = remove-Gone one_file-IsSound ab

open_ab : open_typed ab 0 one_file ≡ (
  some 2,
  record one_file {
    file_table = none ∷ none ∷ some (open_file one_file.headers 2 0) ∷ replicate 97 none;
  },
)
unfolding open_typed get_idx_free_slot init find find_index add place matches strncmp_eq strncpy
open_ab = refl
