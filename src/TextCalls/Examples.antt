-- ===== src/TextCalls/Examples.antt =====
-- Characters and strings at concrete inputs.
use os_project2_nach_os.Base.{
  ℕ, ◌≡◌, refl, List, [], ◌∷◌, ◌++◌, none, some, ok, err, machine_halted, false, replicate, arith,
}
use os_project2_nach_os.Console.{read}
use os_project2_nach_os.FileCalls.{CallState, returns}
use os_project2_nach_os.TextCalls.{
  handle_read_char, handle_print_char, handle_read_string, handle_print_string,
}
use os_project2_nach_os.TextCalls.Echo.{Holds, handle_read_string-handle_print_string}

-- A program with that input, and no files.
abbrev typed : List ℕ → CallState
typed input = record {
  files = record {
    file_table = replicate 100 none;
    free_map = record { num_bits = 32; num_words = 1; map = 3 ∷ [] };
    directory = record { table = [] };
    headers = λ s. record { num_bytes = 0; num_sectors = 0; data_sectors = [] };
  };
  disk = record { store = λ s. replicate 512 0; active = false };
  user = λ a. 7;
  input = input;
  output = [];
  r2 = 9;
}

reads_one : handle_read_char (typed (65 ∷ 10 ∷ 66 ∷ [])) ≡ ok (some (returns 65 (typed (66 ∷ []))))
unfolding handle_read_char read
reads_one = refl

two_are_too_many : handle_read_char (typed (65 ∷ 66 ∷ 10 ∷ [])) ≡ err machine_halted
unfolding handle_read_char read
two_are_too_many = refl

prints_low_byte : handle_print_char 321 (typed []) ≡ record (typed []) { output = 65 ∷ [] }
unfolding handle_print_char
prints_low_byte = refl

handle_read_string-handle_print_string_example :
    (k' : CallState) × (handle_read_string 40 8 (typed (72 ∷ 105 ∷ 10 ∷ 66 ∷ [])) ≡ ok (some k'))
    × Holds (λ a. 7) 40 (72 ∷ 105 ∷ []) k'.user
    × (k'.input ≡ 66 ∷ [])
    × (handle_print_string 40 k' ≡ record k' { output = [] ++ ((72 ∷ 105 ∷ []) ++ (0 ∷ [])) })
handle_read_string-handle_print_string_example =
    handle_read_string-handle_print_string (typed (72 ∷ 105 ∷ 10 ∷ 66 ∷ [])) 40 8 (72 ∷ 105 ∷ [])
      (66 ∷ []) (refl, refl, refl, (refl, refl, refl, tt)) (refl, (refl, tt)) (omega arith)
      (omega arith) refl
