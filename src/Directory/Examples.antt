-- ===== src/Directory/Examples.antt =====
-- The directory at concrete inputs.
use os_project2_nach_os.Base.{ℕ, ◌≡◌, refl, true, false, List, [], ◌∷◌, replicate, some}
use os_project2_nach_os.Base.CString.{strncmp_eq, strncpy}
use os_project2_nach_os.Directory.{
  DirectoryEntry, Directory, find, add, remove, find_index, matches, place,
}
use os_project2_nach_os.Directory.Lookup.{lookup}
use os_project2_nach_os.Directory.Names.{Distinct}
use os_project2_nach_os.Directory.Update.{Added, add-Added, Removed, remove-Removed}

-- "ab" and "cd"
abbrev ab : List ℕ
ab = b'a' ∷ b'b' ∷ []

abbrev cd : List ℕ
cd = b'c' ∷ b'd' ∷ []

abbrev unused : DirectoryEntry
unused = record { in_use = false; sector = 99; name = replicate 10 255 }

abbrev one_file : Directory
one_file = record {
  table =
      unused
      ∷ record { in_use = true; sector = 7; name = b'c' ∷ b'd' ∷ replicate 8 0 }
      ∷ unused
      ∷ [];
}

find-cd : find one_file cd ≡ some 7
unfolding find find_index matches strncmp_eq
find-cd = refl

add-ab : add one_file ab 12 ≡ (
  true,
  record {
    table =
        record {
          in_use = true;
          sector = 12;
          name = b'a' ∷ b'b' ∷ 0 ∷ 0 ∷ 0 ∷ 0 ∷ 0 ∷ 0 ∷ 0 ∷ 255 ∷ [];
        }
        ∷ record { in_use = true; sector = 7; name = b'c' ∷ b'd' ∷ replicate 8 0 }
        ∷ unused
        ∷ [];
  },
)
unfolding add find_index matches strncmp_eq strncpy place
add-ab = refl

add-cd_again : add one_file cd 12 ≡ (false, one_file)
unfolding add find_index matches strncmp_eq
add-cd_again = refl

one_file-Distinct : Distinct one_file.table
unfolding lookup matches
one_file-Distinct = ((λ e. cc), ((λ e. refl), ((λ e. cc), tt)))

add-Added_example : Added one_file ab 12 (add one_file ab 12)
add-Added_example = add-Added one_file ab 12

remove-Removed_example : Removed one_file cd (remove one_file cd)
remove-Removed_example = remove-Removed one_file cd one_file-Distinct
