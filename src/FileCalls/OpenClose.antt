-- ===== src/FileCalls/OpenClose.antt =====
-- CloseFile undoes OpenFile.
use os_project2_nach_os.Base.{
  ℕ, ◌≤◌, ◌<◌, ◌≡◌, ◌≢◌, refl, ap, ◌∙◌, Bool, false, ◌||◌, ◌&&◌, not, List, Option, none, some, ok,
  get_elem?, length, leb, get_elem?-set_self, get_elem?-bound, set-set, set_same, ◌==◌, arith,
  Bool-cases, inl, inr,
}
use os_project2_nach_os.FileHeader.{slot_int}
use os_project2_nach_os.Directory.{find}
use os_project2_nach_os.OpenFile.{OpenFile}
use os_project2_nach_os.FileSystem.{FileSystem, files_in_table, open_file}
use os_project2_nach_os.FileSystem.Table.{Opened, no_slot, no_name, opened, open_typed-Opened}
use os_project2_nach_os.SemTable.{strcmp_eq}
use os_project2_nach_os.UserMemory.{string_at}
use os_project2_nach_os.Integer.{is_negative}
use os_project2_nach_os.FileCalls.{
  CallState, with_file, minus_one, max_filename_len, returns, stdin, stdout, open_named,
  handle_open_file, handle_close_file,
}

-- Closing an id of an open file that a program may close.
pub close_taken :
    (k : CallState) (slot : ℕ) (f : OpenFile)
    → 2 ≤ slot
    → slot < files_in_table
    → get_elem? k.files.file_table slot ≡ some (some f)
    → handle_close_file slot k ≡ ok (returns 0 (with_file slot none k))
unfolding handle_close_file
close_taken k slot f low high at = rw (handle_close_file, closable slot low high, at)
  where
    closable :
        (s : ℕ)
        → 2 ≤ s
        → s < files_in_table
        → (s == 0 || s == 1 || is_negative s || leb files_in_table s) ≡ false
    closable s h i = ground arith

-- OpenFile with type 0 or 1 answers -1, or a slot that was free and now has the file of the name
-- with its cursor at 0.
pub data Answers (k : CallState) (name : List ℕ) (type : ℕ) : CallState → Type 0 where
  refuses : Answers k name type (returns minus_one k)
  answers :
      {slot sector : ℕ}
      → 2 ≤ slot
      → get_elem? k.files.file_table slot ≡ some none
      → find k.files.directory name ≡ some sector
      → Answers k name type
          (returns slot (with_file slot (some (open_file k.files.headers sector type)) k))

slot_cases :
    (k : CallState) (name : List ℕ) (type : ℕ) {r : Option ℕ × FileSystem}
    → Opened k.files name type r
    → Answers k name type (returns (slot_int r.0) (record k { files = r.1 }))
slot_cases k name type (no_slot all) = refuses
slot_cases k name type (no_name new) = refuses
slot_cases k name type (opened h free all f) = answers h free f

open_named-Answers :
    (k : CallState) (name : List ℕ) (type : ℕ)
    → type < 2
    → Answers k name type (open_named name type k)
unfolding open_named
open_named-Answers k name type low = elim (Bool-cases (strcmp_eq name stdin || type == 2)) [
  | inl a ↦ rw (a, not_both (strcmp_eq name stdin) 2 (omega arith)) refuses
  | inr a ↦ elim (Bool-cases (strcmp_eq name stdout || type == 3)) [
    | inl b ↦ rw (a, b, not_both (strcmp_eq name stdout) 3 (omega arith)) refuses
    | inr b ↦ rw (a, b) (slot_cases k name type (open_typed-Opened k.files name type low))
  ]
]
  where
    not_both : (b : Bool) (t : ℕ) → 2 ≤ t → (b && type == t) ≡ false
    not_both b t h = ground arith

pub handle_open_file-Answers :
    (k : CallState) (r4 r5 : ℕ)
    → r5 < 2
    → Answers k (string_at k.user r4 max_filename_len) r5 (handle_open_file r4 r5 k)
unfolding handle_open_file
handle_open_file-Answers k r4 r5 low =
    let known : (not (r5 == 0) && not (r5 == 1) && not (r5 == 2) && not (r5 == 3)) ≡ false =
      ground arith in
    rw known (open_named-Answers k (string_at k.user r4 max_filename_len) r5 low)

closes :
    {k k' : CallState} {name : List ℕ} {type : ℕ}
    → length k.files.file_table ≡ files_in_table
    → Answers k name type k'
    → k'.r2 ≢ minus_one
    → handle_close_file k'.r2 k' ≡ ok (returns 0 k)
closes len refuses ne = absurd (ne refl)
closes {k} {type = type} len (answers {slot} {sector} h free f) ne =
    let file = some (open_file k.files.headers sector type) in
    let bound = get_elem?-bound k.files.file_table slot free in
    close_taken (returns slot (with_file slot file k)) slot (open_file k.files.headers sector type)
      h (omega (arith, len, bound)) (get_elem?-set_self k.files.file_table slot file bound)
    ∙ ap (λ t. ok (returns 0 (record k { files = record k.files { file_table = t } })))
        (set-set k.files.file_table slot file none ∙ set_same k.files.file_table slot free)

-- OpenFile with type 0 or 1, over a table of the length that the constructor gives it: if it does
-- not answer -1, then CloseFile of its answer succeeds, and all is as it was but for register 2,
-- which is 0.
pub handle_open_file-handle_close_file :
    (k : CallState) (r4 r5 : ℕ)
    → r5 < 2
    → length k.files.file_table ≡ files_in_table
    → (handle_open_file r4 r5 k).r2 ≢ minus_one
    → handle_close_file (handle_open_file r4 r5 k).r2 (handle_open_file r4 r5 k) ≡ ok (returns 0 k)
handle_open_file-handle_close_file k r4 r5 low len ne =
    closes len (handle_open_file-Answers k r4 r5 low) ne
