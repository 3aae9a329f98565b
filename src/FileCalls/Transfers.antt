-- ===== src/FileCalls/Transfers.antt =====
-- ReadFile and WriteFile on an open file, against the bytes that the file holds.
use os_project2_nach_os.Base.{
  ℕ, zero, suc, ◌+◌, ◌-◌, ◌^◌, ◌≤◌, ◌<◌, ◌≡◌, ap, ◌∙◌, sym, false, ◌||◌, List, [], some, ok,
  get_elem?, length, length-append, replicate, min, ltb, leb, ge→ltb, subst, append-nil, ◌==◌,
  arith, Bool-cases, inl, inr,
}
use os_project2_nach_os.Base.Slices.{length-tabulate}
use os_project2_nach_os.Disk.{Disk}
use os_project2_nach_os.OpenFile.{OpenFile, read, write}
use os_project2_nach_os.OpenFile.Bytes.{file_bytes, IsStored}
use os_project2_nach_os.OpenFile.Read.{reached, read_at-file_bytes}
use os_project2_nach_os.OpenFile.Write.{Overwritten, write_at-Overwritten}
use os_project2_nach_os.FileSystem.{files_in_table}
use os_project2_nach_os.UserMemory.{string_at, user2system, system2user}
use os_project2_nach_os.UserMemory.RoundTrip.{IsText, Stored, system2user-string_at}
use os_project2_nach_os.Integer.{is_negative}
use os_project2_nach_os.FileCalls.{
  CallState, moved, max_filecontent_len, read_open, write_open, handle_read_file, handle_write_file,
}

pub length-string_at : (user : ℕ → ℕ) (addr limit : ℕ) → length (string_at user addr limit) ≤ limit
unfolding string_at
length-string_at user addr zero = omega arith
length-string_at user addr (suc limit) = elim (Bool-cases (user addr == 0)) [
  | inl e ↦ rw e (omega arith)
  | inr e ↦ rw e (omega (arith, length-string_at user (addr + 1) limit))
]

-- The string of User2System ends before the first 0.
pub string_at-IsText : (user : ℕ → ℕ) (addr limit : ℕ) → IsText (string_at user addr limit)
unfolding string_at
string_at-IsText user addr zero = tt
string_at-IsText user addr (suc limit) = elim (Bool-cases (user addr == 0)) [
  | inl e ↦ rw e tt
  | inr e ↦ rw e (e, string_at-IsText user (addr + 1) limit)
]

-- An id that Read and Write look up in the table.
numbered :
    (id : ℕ)
    → 2 ≤ id
    → id < files_in_table
    → ((id == 0) ≡ false)
      × ((id == 1) ≡ false)
      × ((is_negative id || leb files_in_table id) ≡ false)
numbered id low high = ground arith

pub length-user2system :
    (user : ℕ → ℕ) (addr limit : ℕ)
    → length (string_at user addr limit) ≤ length (user2system user addr limit)
unfolding user2system
length-user2system user addr limit = omega (
  arith,
  length-append (string_at user addr limit)
      (replicate (limit + 1 - length (string_at user addr limit)) 0),
)

-- How much of the string WriteFile puts into the file.
abbrev pub put_count : CallState → OpenFile → ℕ → ℕ → ℕ
put_count k f r4 r5 = reached f.hdr (length (string_at k.user r4 r5)) f.seek_position

write_open-Overwritten :
    (garbage : ℕ → ℕ) (k : CallState) (f : OpenFile) (r4 r5 r6 : ℕ)
    → IsStored k.disk f.hdr
    → f.seek_position + length (string_at k.user r4 r5) < 2 ^ 31
    → (d : Disk) × (write_open garbage r4 r5 r6 f k
        ≡ ok (
            moved
              (put_count k f r4 r5)
              r6
              (record f { seek_position = f.seek_position + put_count k f r4 r5 })
              (record k { disk = d })))
      × Overwritten k.disk f.hdr (user2system k.user r4 r5) (put_count k f r4 r5) f.seek_position d
unfolding write_open write
write_open-Overwritten garbage k f r4 r5 r6 v small =
    let text = string_at k.user r4 r5 in
    let short : min (r5 + 1) (length text) ≡ length text =
      omega (arith, length-string_at k.user r4 r5) in
    let (d, e, o) =
      write_at-Overwritten garbage f.hdr k.disk (user2system k.user r4 r5) (length text)
        f.seek_position v (length-user2system k.user r4 r5) small in
    (d, rw (short, e), o)

-- WriteFile on an open file whose data are stored on the disk, where the cursor and the length of
-- the string add up to an int: as much of the string as the file
-- has room for behind the cursor is put there, its length goes to register 2, and the cursor moves
-- behind it; if there is no room, or no string, register 2 gets -2 and the cursor goes back to 0.
-- The rest of the file is as it was, and no sector that is not the file's changes.
pub handle_write_file-Overwritten :
    (garbage : ℕ → ℕ) (k : CallState) (f : OpenFile) (r4 r5 r6 : ℕ)
    → 2 ≤ r6
    → r6 < files_in_table
    → get_elem? k.files.file_table r6 ≡ some (some f)
    → IsStored k.disk f.hdr
    → f.seek_position + length (string_at k.user r4 r5) < 2 ^ 31
    → (d : Disk) × (handle_write_file garbage r4 r5 r6 k
        ≡ ok (
            moved
              (put_count k f r4 r5)
              r6
              (record f { seek_position = f.seek_position + put_count k f r4 r5 })
              (record k { disk = d })))
      × Overwritten k.disk f.hdr (user2system k.user r4 r5) (put_count k f r4 r5) f.seek_position d
unfolding handle_write_file
handle_write_file-Overwritten garbage k f r4 r5 r6 low high at v small =
    let (not_in, not_out, in_range) = numbered r6 low high in
    let (d, e, o) = write_open-Overwritten garbage k f r4 r5 r6 v small in
    (d, rw (not_in, not_out, in_range, at, e), o)

copies_all :
    (user : ℕ → ℕ) (addr n : ℕ) (text : List ℕ)
    → IsText text
    → length text ≡ n
    → (user' : ℕ → ℕ) × (system2user user addr n text ≡ ok (n, user')) × Stored user addr text user'
copies_all user addr n text t e =
    let (user', e', s) = system2user-string_at user addr text [] t in
    (
      user',
      subst (λ l. system2user user addr l text ≡ ok (l, user')) e
          (ap (system2user user addr (length text)) (sym (append-nil text)) ∙ e'),
      s,
    )

-- How much ReadFile gets from an open file, and what.
abbrev pub get_count : CallState → OpenFile → ℕ → ℕ
get_count k f r5 = reached f.hdr r5 f.seek_position

abbrev pub got : CallState → OpenFile → ℕ → List ℕ
got k f r5 = file_bytes k.disk f.hdr f.seek_position (get_count k f r5)

-- The kernel when ReadFile is done, and its last step is System2User.
abbrev pub after_read : CallState → OpenFile → ℕ → ℕ → (ℕ → ℕ) → CallState
after_read k f r5 r6 user =
    record (moved (get_count k f r5) r6
      (record f { seek_position = f.seek_position + get_count k f r5 }) k) { user = user }

read_open-Stored :
    (k : CallState) (f : OpenFile) (r4 r5 r6 : ℕ)
    → IsStored k.disk f.hdr
    → f.seek_position + r5 < 2 ^ 31
    → get_count k f r5 ≤ max_filecontent_len
    → IsText (got k f r5)
    → (user : ℕ → ℕ) × (read_open r4 r5 r6 f k ≡ ok (after_read k f r5 r6 user))
      × Stored k.user r4 (got k f r5) user
unfolding read_open read
read_open-Stored k f r4 r5 r6 v in_int fits text =
    let (user, e, s) =
      copies_all k.user r4 (get_count k f r5) (got k f r5) text
        (length-tabulate _ f.seek_position (get_count k f r5)) in
    let small : ltb max_filecontent_len (get_count k f r5) ≡ false = ge→ltb _ _ fits in
    (user, rw (read_at-file_bytes f.hdr k.disk r5 f.seek_position v in_int, small, e), s)

-- ReadFile on a file that is open with type 0 and whose data are stored on the disk, where what is
-- left of the file, up to the count, fits the buffer and has no byte 0, and the cursor and the count
-- add up to an int: those bytes go to user
-- memory, their number to register 2, and the cursor moves behind them; if there are none, register
-- 2 gets -2 and the cursor goes back to 0. The disk and the rest of user memory stay.
pub handle_read_file-Stored :
    (k : CallState) (f : OpenFile) (r4 r5 r6 : ℕ)
    → 2 ≤ r6
    → r6 < files_in_table
    → get_elem? k.files.file_table r6 ≡ some (some f)
    → f.type ≡ 0
    → IsStored k.disk f.hdr
    → f.seek_position + r5 < 2 ^ 31
    → get_count k f r5 ≤ max_filecontent_len
    → IsText (got k f r5)
    → (user : ℕ → ℕ) × (handle_read_file r4 r5 r6 k ≡ ok (some (after_read k f r5 r6 user)))
      × Stored k.user r4 (got k f r5) user
unfolding handle_read_file
handle_read_file-Stored k f r4 r5 r6 low high at t v in_int fits text =
    let (not_in, not_out, in_range) = numbered r6 low high in
    let (user, e, s) = read_open-Stored k f r4 r5 r6 v in_int fits text in
    (user, rw (not_in, not_out, in_range, at, e, t), s)
