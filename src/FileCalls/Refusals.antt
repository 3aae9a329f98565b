-- ===== src/FileCalls/Refusals.antt =====
-- The ids that the calls on files refuse.
use os_project2_nach_os.Base.{
  ℕ, ap, Result, ◌≤◌, ◌<◌, ◌≡◌, ◌≢◌, refl, Bool, ◌⊎◌, true, false, ◌||◌, Option, none, some, ok,
  get_elem?, leb, ◌==◌, arith, inl, inr,
}
use os_project2_nach_os.OpenFile.{OpenFile}
use os_project2_nach_os.FileSystem.{files_in_table}
use os_project2_nach_os.Integer.{is_negative}
use os_project2_nach_os.FileCalls.{
  CallState, minus_one, returns, finishes, handle_read_file, handle_write_file, handle_close_file,
}

-- Ids that no table entry has, and those of entries without an open file.
pub data Unopened (k : CallState) (id : ℕ) : Type 0 where
  out_of_range : files_in_table ≤ id → Unopened k id
  not_open :
      2 ≤ id → id < files_in_table → get_elem? k.files.file_table id ≡ some none → Unopened k id

-- What cannot be read: stdout, what is not open, and a file that is not open with type 0.
pub data Unreadable (k : CallState) (id : ℕ) : Type 0 where
  is_stdout : id ≡ 1 → Unreadable k id
  unopened : Unopened k id → Unreadable k id
  wrong_type :
      {f : OpenFile}
      → 2 ≤ id
      → id < files_in_table
      → get_elem? k.files.file_table id ≡ some (some f)
      → f.type ≢ 0
      → Unreadable k id

high :
    (id : ℕ)
    → files_in_table ≤ id
    → ((id == 0) ≡ false) × ((id == 1) ≡ false) × (leb files_in_table id ≡ true)
high id h = ground arith

inside :
    (id : ℕ)
    → 2 ≤ id
    → id < files_in_table
    → ((id == 0) ≡ false)
      × ((id == 1) ≡ false)
      × (is_negative id ≡ false)
      × (leb files_in_table id ≡ false)
inside id h l = ground arith

or_true : (b : Bool) → (b || true) ≡ true
or_true true = refl
or_true false = refl

read_refused :
    (k : CallState) (r4 r5 id : ℕ)
    → Unreadable k id
    → handle_read_file r4 r5 id k ≡ ok (some (returns minus_one k))
unfolding handle_read_file
read_refused k r4 r5 id (is_stdout e) = rw (handle_read_file, e) refl
read_refused k r4 r5 id (unopened (out_of_range h)) =
    let (a, b, c) = high id h in rw (a, b, c, or_true (is_negative id)) refl
read_refused k r4 r5 id (unopened (not_open l h e)) =
    let (a, b, c, d) = inside id l h in rw (a, b, c, d, e) refl
read_refused k r4 r5 id (wrong_type {f} l h e t) =
    let (a, b, c, d) = inside id l h in
    let other : (f.type == 0) ≡ false = ground arith in rw (a, b, c, d, e, other) refl

write_refused :
    (garbage : ℕ → ℕ) (k : CallState) (r4 r5 id : ℕ)
    → (id ≡ 0) ⊎ Unopened k id
    → handle_write_file garbage r4 r5 id k ≡ ok (returns minus_one k)
unfolding handle_write_file
write_refused garbage k r4 r5 id (inl e) = rw (handle_write_file, e) refl
write_refused garbage k r4 r5 id (inr (out_of_range h)) =
    let (a, b, c) = high id h in rw (a, b, c, or_true (is_negative id)) refl
write_refused garbage k r4 r5 id (inr (not_open l h e)) =
    let (a, b, c, d) = inside id l h in rw (a, b, c, d, e) refl

close_refused :
    (k : CallState) (id : ℕ)
    → (id < 2) ⊎ Unopened k id
    → handle_close_file id k ≡ ok (returns minus_one k)
unfolding handle_close_file
close_refused k id (inl h) = rw (console id h) refl
  where
    console : (i : ℕ) → i < 2 → (i == 0 || i == 1 || is_negative i || leb files_in_table i) ≡ true
    console i l = ground arith
close_refused k id (inr (out_of_range h)) =
    let (a, b, c) = high id h in rw (a, b, c, or_true (is_negative id)) refl
close_refused k id (inr (not_open l h e)) =
    let (a, b, c, d) = inside id l h in rw (a, b, c, d, e) refl

-- The three calls on an open file, with one kind of result.
pub data Call : Type 0 where
  reading writing closing : Call

abbrev pub answer : (ℕ → ℕ) → CallState → ℕ → ℕ → ℕ → Call → Result (Option CallState)
answer garbage k r4 r5 id reading = handle_read_file r4 r5 id k
answer garbage k r4 r5 id writing = finishes (handle_write_file garbage r4 r5 id k)
answer garbage k r4 r5 id closing = finishes (handle_close_file id k)

-- What a call refuses.
pub data Refused (k : CallState) (id : ℕ) : Call → Type 0 where
  read_stdout : id ≡ 1 → Refused k id reading
  read_other_type :
      {f : OpenFile}
      → 2 ≤ id
      → id < files_in_table
      → get_elem? k.files.file_table id ≡ some (some f)
      → f.type ≢ 0
      → Refused k id reading
  write_stdin : id ≡ 0 → Refused k id writing
  close_console : id < 2 → Refused k id closing
  not_there : {c : Call} → Unopened k id → Refused k id c

-- A call on an id that it cannot serve answers -1 and changes nothing else: ReadFile on stdout, or
-- on a file that is not open with type 0, WriteFile on stdin, CloseFile on either of the two, and
-- each of them on an id that is out of range (one that is negative is) or not open.
pub answer-Refused :
    (garbage : ℕ → ℕ) (k : CallState) (r4 r5 id : ℕ) (c : Call)
    → Refused k id c
    → answer garbage k r4 r5 id c ≡ ok (some (returns minus_one k))
answer-Refused garbage k r4 r5 id c (read_stdout e) = read_refused k r4 r5 id (is_stdout e)
answer-Refused garbage k r4 r5 id c (read_other_type l h e t) =
    read_refused k r4 r5 id (wrong_type l h e t)
answer-Refused garbage k r4 r5 id c (write_stdin e) =
    ap finishes (write_refused garbage k r4 r5 id (inl e))
answer-Refused garbage k r4 r5 id c (close_console h) = ap finishes (close_refused k id (inl h))
answer-Refused garbage k r4 r5 id reading (not_there u) = read_refused k r4 r5 id (unopened u)
answer-Refused garbage k r4 r5 id writing (not_there u) =
    ap finishes (write_refused garbage k r4 r5 id (inr u))
answer-Refused garbage k r4 r5 id closing (not_there u) = ap finishes (close_refused k id (inr u))
