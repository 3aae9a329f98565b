-- ===== src/FileCalls/Examples.antt =====
-- The calls on files at concrete inputs.
use os_project2_nach_os.Base.{
  ℕ, zero, suc, ◌<◌, ◌≡◌, ◌≢◌, refl, true, false, [], ◌∷◌, none, some, ok, length, get_or,
  replicate, length-replicate, arith,
}
use os_project2_nach_os.Base.CString.{strncmp_eq}
use os_project2_nach_os.Disk.{Disk, disk_sectors}
use os_project2_nach_os.FileHeader.{FileHeader}
use os_project2_nach_os.Directory.{find, find_index, matches}
use os_project2_nach_os.OpenFile.Bytes.{block, IsStored}
use os_project2_nach_os.FileSystem.{open_file, open_typed, get_idx_free_slot}
use os_project2_nach_os.UserMemory.{string_at}
use os_project2_nach_os.FileCalls.{
  CallState, minus_one, returns, with_file, open_named, handle_open_file, handle_close_file,
  handle_read_file, handle_write_file,
}
use os_project2_nach_os.FileCalls.OpenClose.{handle_open_file-handle_close_file}
use os_project2_nach_os.FileCalls.SaveLoad.{save_load}
use os_project2_nach_os.FileCalls.Refusals.{not_open, answer, reading, not_there, answer-Refused}

-- A hundred bytes in sector 7 of a disk.
abbrev small : FileHeader
small = record { num_bytes = 100; num_sectors = 1; data_sectors = 7 ∷ replicate 125 0 }

abbrev zeros : Disk
zeros = record { store = λ s. replicate 512 0; active = false }

block_of_small : (b : ℕ) → b < 1 → block small b < disk_sectors
block_of_small zero h = omega arith
block_of_small (suc b) h = absurd (omega arith)

small-IsStored : IsStored zeros small
small-IsStored = record {
  idle = refl;
  whole = λ s h. length-replicate {A = ℕ} 512 0;
  enough = omega arith;
  listed = omega arith;
  on_disk = block_of_small;
  distinct = λ b c h k e. omega arith;
}

-- The name "ab" is at 0, the string "hi!" at 3.
abbrev kernel : CallState
kernel = record {
  files = record {
    file_table = replicate 100 none;
    free_map = record { num_bits = 32; num_words = 1; map = 135 ∷ [] };
    directory = record {
      table = record { in_use = true; sector = 2; name = 97 ∷ 98 ∷ replicate 8 0 } ∷ [];
    };
    headers = λ s. small;
  };
  disk = zeros;
  user = λ a. get_or (97 ∷ 98 ∷ 0 ∷ 104 ∷ 105 ∷ 33 ∷ []) a 0;
  input = [];
  output = [];
  r2 = 0;
}

opens :
    handle_open_file 0 0 kernel ≡ returns 2 (with_file 2 (some (open_file (λ s. small) 2 0)) kernel)
unfolding handle_open_file open_named open_typed get_idx_free_slot find find_index matches
    strncmp_eq string_at
opens = refl

answer_is_id : (handle_open_file 0 0 kernel).r2 ≢ minus_one
unfolding handle_open_file open_named open_typed get_idx_free_slot find find_index matches
    strncmp_eq string_at
answer_is_id h = absurd (omega (arith, h))

handle_open_file-handle_close_file_example :
    handle_close_file (handle_open_file 0 0 kernel).r2 (handle_open_file 0 0 kernel)
    ≡ ok (returns 0 kernel)
handle_open_file-handle_close_file_example =
    handle_open_file-handle_close_file kernel 0 0 (omega arith) refl answer_is_id

text_length : length (string_at kernel.user 3 10) ≡ 3
unfolding string_at
text_length = refl

save_load_example :
    (k₂ : CallState) × (k₃ : CallState) × (k₅ : CallState) × (handle_write_file
        (λ i. 255)
        3
        10
        (handle_open_file 0 0 kernel).r2
        (handle_open_file 0 0 kernel)
      ≡ ok k₂)
    × (handle_close_file (handle_open_file 0 0 kernel).r2 k₂ ≡ ok k₃)
    × (handle_read_file 50
          (length (string_at kernel.user 3 10))
          (handle_open_file 0 0 k₃).r2
          (handle_open_file 0 0 k₃)
        ≡ ok (some k₅))
    × (k₅.r2 ≡ length (string_at kernel.user 3 10))
    × (string_at k₅.user 50 (length (string_at kernel.user 3 10)) ≡ string_at kernel.user 3 10)
save_load_example =
    save_load (λ i. 255) kernel 0 3 10 50 refl answer_is_id (omega (arith, text_length))
      (omega (arith, text_length)) (λ s f. (small-IsStored, omega (arith, text_length)))

answer-Refused_example :
    answer (λ i. 255) kernel 50 9 5 reading ≡ ok (some (returns minus_one kernel))
answer-Refused_example =
    answer-Refused (λ i. 255) kernel 50 9 5 reading
      (not_there (not_open (omega arith) (omega arith) refl))
