-- ===== src/ProcessTable/Examples.antt =====
-- Processes at concrete inputs.
use os_project2_nach_os.Base.{
  ℕ, ◌<◌, get_or, ◌≡◌, refl, true, List, [], ◌∷◌, Option, none, some, ok, replicate, arith,
}
use os_project2_nach_os.Base.CString.{strncmp_eq}
use os_project2_nach_os.Utility.{div_round_up}
use os_project2_nach_os.BitMap.{init, clear_each, clear, mark, test, find_free_slot}
use os_project2_nach_os.BitMap.Sets.{marked}
use os_project2_nach_os.Directory.{find, find_index, matches}
use os_project2_nach_os.FileSystem.{FileSystem, open_untyped, get_idx_free_slot}
use os_project2_nach_os.ProcessTable.{
  Pcb, PTable, new_pcb, create_table, exec_update, resume_exit, resume_join, waits_to_exit,
}
use os_project2_nach_os.ProcessTable.Slots.{child_of}
use os_project2_nach_os.ProcessTable.Exec.{IsRunning, Started, exec_update-Started}
use os_project2_nach_os.UserMemory.{string_at}
use os_project2_nach_os.ProcessTable.Calls.{
  waits_to_join, handle_exec, handle_join, handle_exit, handle_exec-handle_exit,
}

abbrev main_process : Pcb
main_process = record (new_pcb 0 0) { parent_id = none }

-- The main process alone.
abbrev alone : PTable
alone = record {
  bm = record { num_bits = 10; num_words = 1; map = 1 ∷ [] };
  pcbs = some main_process ∷ replicate 9 none;
  psize = 10;
}

-- The main process, and its child in slot 1.
abbrev table : PTable
table = record {
  bm = record { num_bits = 10; num_words = 1; map = 3 ∷ [] };
  pcbs = some main_process ∷ some (child_of 0 0 0) ∷ replicate 8 none;
  psize = 10;
}

first_table : create_table (λ i. 0) 10 ≡ ok alone
unfolding create_table init clear mark div_round_up clear_each
first_table = refl

-- The program "ab", and the name "m" of the thread that starts it.
abbrev ab : List ℕ
ab = 97 ∷ 98 ∷ []

abbrev main_name : List ℕ
main_name = 109 ∷ []

abbrev disk : FileSystem
disk = record {
  file_table = replicate 100 none;
  free_map = record { num_bits = 40; num_words = 2; map = 31 ∷ 0 ∷ [] };
  directory = record {
    table = record { in_use = true; sector = 2; name = 97 ∷ 98 ∷ replicate 8 0 } ∷ [];
  };
  headers =
      λ s. record { num_bytes = 600; num_sectors = 2; data_sectors = 3 ∷ 4 ∷ replicate 124 7 };
}

starts_ab : exec_update (some ab) main_name disk 0 alone ≡ ok (some 1, table)
unfolding exec_update open_untyped get_idx_free_slot find find_index matches strncmp_eq
    find_free_slot test mark
starts_ab = refl

refuses_itself : exec_update (some main_name) main_name disk 0 alone ≡ ok (none, alone)
unfolding exec_update
refuses_itself = refl

alone-IsRunning : IsRunning alone 0 main_process
unfolding div_round_up
alone-IsRunning = record {
  valid = record { counted = refl; stored = refl; fits = omega arith };
  bits = refl;
  sized = refl;
  slots = refl;
  main = refl;
  in_use = refl;
  here = refl;
}

exec_update-Started_example :
    (r : Option ℕ × PTable) × (exec_update (some ab) main_name disk 0 alone ≡ ok r)
    × Started (some ab) main_name disk 0 alone main_process r
exec_update-Started_example =
    exec_update-Started (some ab) main_name disk 0 alone main_process alone-IsRunning

-- The name "ab" is at 0.
abbrev memory : ℕ → ℕ
memory a = get_or ab a 0

exec_ab : handle_exec memory main_name disk 0 0 alone ≡ ok (1, table)
unfolding handle_exec exec_update string_at open_untyped get_idx_free_slot find find_index matches
    strncmp_eq find_free_slot test mark
exec_ab = refl

handle_exec-handle_exit_example :
    ((status : ℕ) → 0 < status → handle_exit status 1 table ≡ ok none)
    × ((t₁ : PTable) × (t₂ : PTable) × (t₃ : PTable) × (t₄ : PTable) × (handle_join 1 0 table
          ≡ ok (waits_to_join t₁))
        × (resume_join 1 t₁ ≡ ok none)
        × (handle_exit 0 1 t₁ ≡ ok (some (waits_to_exit t₂)))
        × (resume_exit 1 t₂ ≡ ok none)
        × (resume_join 1 t₂ ≡ ok (some (0, t₃)))
        × (resume_exit 1 t₃ ≡ ok (some t₄))
        × ((j : ℕ) → marked t₄.bm j ≡ marked alone.bm j))
handle_exec-handle_exit_example =
    handle_exec-handle_exit memory main_name disk 0 0 1 alone table main_process alone-IsRunning
      exec_ab (omega arith)
