-- ===== src/FileCalls.antt =====
-- nachos/nachos-3.4/code/userprog/exception.cc: the system calls on files, over the file system on
-- the disk. The registers 4, 5 and 6 are arguments, and what the call leaves in register 2 is a
-- field. An int is its 32-bit pattern; a count is not negative. `new` does not return NULL.
pub mod Refusals
pub mod OpenClose
pub mod Transfers
pub mod SaveLoad
mod Examples
use os_project2_nach_os.Base.{
  ℕ, ◌+◌, ◌-◌, ◌^◌, Bool, true, false, ◌||◌, ◌&&◌, not, List, [], ◌∷◌, ◌++◌, Option, none, some,
  Result, ok, err, wild_access, ◌>>=◌, or_wild, get_elem?, set, length, replicate, min, ltb, leb,
  ◌==◌, if◌then◌else◌,
}
use os_project2_nach_os.Disk.{Disk}
use os_project2_nach_os.FileHeader.{FileHeader, slot_int}
use os_project2_nach_os.OpenFile.{OpenFile, read, write}
use os_project2_nach_os.FileSystem.{FileSystem, files_in_table, create, open_typed}
use os_project2_nach_os.UserMemory.{string_at, user2system, system2user}
use os_project2_nach_os.SemTable.{strcmp_eq}
use os_project2_nach_os.Integer.{is_negative}
use os_project2_nach_os.Console.{ReadResult, read as read_line, write as put}

-- What the calls use: the file system and the disk, user memory, what the keyboard will give, what
-- went to the screen, and register 2.
pub record CallState : Type 0 where
  pub files : FileSystem
  pub disk : Disk
  pub user : ℕ → ℕ
  pub input : List ℕ
  pub output : List ℕ
  pub r2 : ℕ

-- The error that a call returns, and the end of the file.
abbrev pub minus_one : ℕ
minus_one = 2 ^ 32 - 1

abbrev pub minus_two : ℕ
minus_two = 2 ^ 32 - 2

abbrev pub returns : ℕ → CallState → CallState
returns v k = record k { r2 = v }

abbrev pub max_filename_len : ℕ
max_filename_len = 200

abbrev pub max_filecontent_len : ℕ
max_filecontent_len = 2000

-- fileSystem->file_table[id] = f
abbrev pub with_file : ℕ → Option OpenFile → CallState → CallState
with_file id f k = record k { files = record k.files { file_table = set k.files.file_table id f } }

-- fileSystem->file_table[id]
abbrev pub file_at : CallState → ℕ → Result (Option OpenFile)
file_at k id = or_wild (get_elem? k.files.file_table id)

-- What Create answers is a bool, which is never -1.
unfoldable pub handle_create_file : FileHeader → ℕ → CallState → Result CallState
handle_create_file fresh r4 k =
    let name = string_at k.user r4 max_filename_len in
    let created =
      create fresh name 0 k.files >>= λ (success, fs). ok (returns 0 (record k { files = fs })) in
    if length name == 0 then ok (returns minus_one k) else created

abbrev pub stdin : List ℕ
stdin = 115 ∷ 116 ∷ 100 ∷ 105 ∷ 110 ∷ []

abbrev pub stdout : List ℕ
stdout = 115 ∷ 116 ∷ 100 ∷ 111 ∷ 117 ∷ 116 ∷ []

-- OpenFile, once the type is one of the four.
unfoldable pub open_named : List ℕ → ℕ → CallState → CallState
open_named name type k =
    if strcmp_eq name stdin || type == 2
    then returns (if strcmp_eq name stdin && type == 2 then 0 else minus_one) k
    else if strcmp_eq name stdout || type == 3
    then returns (if strcmp_eq name stdout && type == 3 then 1 else minus_one) k
    else let (slot, fs) = open_typed name type k.files in
      returns (slot_int slot) (record k { files = fs })

unfoldable pub handle_open_file : ℕ → ℕ → CallState → CallState
handle_open_file r4 r5 k =
    if not (r5 == 0) && not (r5 == 1) && not (r5 == 2) && not (r5 == 3)
    then returns minus_one k
    else open_named (string_at k.user r4 max_filename_len) r5 k

unfoldable pub handle_close_file : ℕ → CallState → Result CallState
handle_close_file r4 k =
    let closed = file_at k r4 >>= λ f. elim f [
      | none ↦ ok (returns minus_one k)
      | some open_file ↦ ok (returns 0 (with_file r4 none k))
    ] in
    if r4 == 0 || r4 == 1 || is_negative r4 || leb files_in_table r4
    then ok (returns minus_one k)
    else closed

-- The end of ReadFile and of WriteFile on an open file: at the end of the file the cursor goes back.
abbrev pub moved : ℕ → ℕ → OpenFile → CallState → CallState
moved nbytes id f k = returns (if nbytes == 0 then minus_two else nbytes) (
    with_file id (some (record f { seek_position = if nbytes == 0 then 0 else f.seek_position })) k)

-- System2User(r4, nbytes, buffer)
abbrev pub deliver : ℕ → ℕ → List ℕ → CallState → Result CallState
deliver r4 nbytes buffer k =
    system2user k.user r4 nbytes buffer >>= λ (n, u). ok (record k { user = u })

-- A store behind the buffer of ReadFile.
abbrev pub in_buffer : ℕ → Result CallState → Result CallState
in_buffer n k = if ltb max_filecontent_len n then err wild_access else k

unfoldable pub read_open : ℕ → ℕ → ℕ → OpenFile → CallState → Result CallState
read_open r4 r5 r6 f k = do
  (nbytes, into, f', d) ← read f k.disk r5
  in_buffer nbytes (deliver r4 nbytes into (moved nbytes r6 f' (record k { disk = d })))

-- A read of the console that ends; -1 goes to register 2 and copies nothing.
abbrev pub read_console : ℕ → ℕ → ReadResult → CallState → Result CallState
read_console r4 r5 l k = in_buffer r5 (elim l.returned [
  | none ↦ ok (returns minus_one (record k { input = l.unread }))
  | some n ↦
      deliver r4 n l.into
        (returns (if n == 0 then minus_two else n) (record k { input = l.unread }))
])

-- ReadFile on an id that is neither 0 nor 1 nor out of range.
abbrev pub read_numbered : ℕ → ℕ → ℕ → CallState → Result CallState
read_numbered r4 r5 r6 k = file_at k r6 >>= λ f. elim f [
  | none ↦ ok (returns minus_one k)
  | some g ↦
      let done = read_open r4 r5 r6 g k in if g.type == 0 then done else ok (returns minus_one k)
]

-- A call that waits for the keyboard is `none`.
abbrev pub finishes : Result CallState → Result (Option CallState)
finishes r = r >>= λ k. ok (some k)

unfoldable pub handle_read_file : ℕ → ℕ → ℕ → CallState → Result (Option CallState)
handle_read_file r4 r5 r6 k =
    if r6 == 0
    then elim (read_line r5 k.input) [ none ↦ ok none | some l ↦ finishes (read_console r4 r5 l k) ]
    else if r6 == 1 || is_negative r6 || leb files_in_table r6
    then ok (some (returns minus_one k))
    else finishes (read_numbered r4 r5 r6 k)

-- WriteFile on an open file. The string ends at the first 0, so strlen is its length.
unfoldable pub write_open : (ℕ → ℕ) → ℕ → ℕ → ℕ → OpenFile → CallState → Result CallState
write_open garbage r4 r5 r6 f k = do
  let text = string_at k.user r4 r5
  (nbytes, f', d) ← write garbage f k.disk (user2system k.user r4 r5) (min (r5 + 1) (length text))
  ok (moved nbytes r6 f' (record k { disk = d }))

abbrev pub write_numbered : (ℕ → ℕ) → ℕ → ℕ → ℕ → CallState → Result CallState
write_numbered garbage r4 r5 r6 k = file_at k r6 >>= λ f. elim f [
  | none ↦ ok (returns minus_one k)
  | some g ↦ write_open garbage r4 r5 r6 g k
]

-- Write of the console returns the number of bytes that it was given.
unfoldable pub handle_write_file : (ℕ → ℕ) → ℕ → ℕ → ℕ → CallState → Result CallState
handle_write_file garbage r4 r5 r6 k =
    if r6 == 0
    then ok (returns minus_one k)
    else if r6 == 1
    then ok (
        returns (r5 + 1)
          (record k { output = k.output ++ put (user2system k.user r4 r5) (r5 + 1) }))
    else if is_negative r6 || leb files_in_table r6
    then ok (returns minus_one k)
    else write_numbered garbage r4 r5 r6 k
