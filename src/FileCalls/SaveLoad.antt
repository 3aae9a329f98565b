-- ===== src/FileCalls/SaveLoad.antt =====
-- A program that saves a string in a file and loads it again, by the calls on files alone.
use os_project2_nach_os.Base.{
  ℕ, ◌+◌, ◌-◌, [], ◌∷◌, ◌++◌, ◌||◌, replicate, ◌≤◌, ◌<◌, ◌≡◌, ◌≢◌, refl, ap, ◌∙◌, sym, subst, ◌&&◌,
  not, List, none, some, ok, get_elem?, set, length, length-set, take, get_elem?-set_self,
  get_elem?-bound, set-set, set_same, ◌==◌, if◌then◌else◌, arith, Bool-cases, inl, inr,
}
use os_project2_nach_os.Disk.{Disk}
use os_project2_nach_os.Directory.{find}
use os_project2_nach_os.OpenFile.Bytes.{file_bytes, IsStored}
use os_project2_nach_os.OpenFile.Cursor.{file_bytes-Overwritten}
use os_project2_nach_os.FileSystem.{files_in_table, open_file}
use os_project2_nach_os.SemTable.{strcmp_eq}
use os_project2_nach_os.UserMemory.{string_at, user2system}
use os_project2_nach_os.UserMemory.RoundTrip.{IsText}
use os_project2_nach_os.FileCalls.{
  CallState, minus_one, minus_two, returns, max_filename_len, max_filecontent_len, with_file, moved,
  stdin, stdout, open_named, handle_open_file, handle_close_file, handle_read_file,
  handle_write_file,
}
use os_project2_nach_os.FileCalls.OpenClose.{
  Answers, refuses, answers, handle_open_file-Answers, close_taken,
}
use os_project2_nach_os.FileCalls.Transfers.{
  put_count, string_at-IsText, get_count, got, after_read, length-user2system,
  handle_write_file-Overwritten, handle_read_file-Stored,
}

-- OpenFile does not look at the disk or at register 2.
same_answer :
    (k : CallState) (d : Disk) (v r4 r5 : ℕ)
    → (handle_open_file r4 r5 (record k { disk = d; r2 = v })).r2 ≡ (handle_open_file r4 r5 k).r2
unfolding handle_open_file open_named
same_answer k d v r4 r5 =
    elim (Bool-cases (not (r5 == 0) && not (r5 == 1) && not (r5 == 2) && not (r5 == 3))) [
      | inl a ↦ rw a refl
      | inr a ↦
          rw a
            (elim (Bool-cases (strcmp_eq (string_at k.user r4 max_filename_len) stdin || r5 == 2)) [
              | inl b ↦ rw b refl
              | inr b ↦
                  rw b
                    (elim (Bool-cases
                      (strcmp_eq (string_at k.user r4 max_filename_len) stdout || r5 == 3)) [
                        | inl c ↦ rw c refl
                        | inr c ↦ rw c refl
                      ])
            ])
    ]

take-append : (xs ys : List ℕ) → take (length xs) (xs ++ ys) ≡ xs
take-append [] ys = refl
take-append (x ∷ xs) ys = ap (λ r. x ∷ r) (take-append xs ys)

take-user2system :
    (user : ℕ → ℕ) (addr limit : ℕ)
    → take (length (string_at user addr limit)) (user2system user addr limit)
      ≡ string_at user addr limit
unfolding user2system
take-user2system user addr limit =
    take-append (string_at user addr limit)
      (replicate (limit + 1 - length (string_at user addr limit)) 0)

answered : (n : ℕ) → 0 < n → (if n == 0 then minus_two else n) ≡ n
answered n h = ground arith

module _ (k : CallState) (d : Disk) (name text : List ℕ)
    (table : length k.files.file_table ≡ files_in_table) (given : 0 < length text)
    (fits : length text ≤ max_filecontent_len) (is_text : IsText text) where
  -- Loading: the file of the name holds the text.
  loads :
      {k' : CallState} (into : ℕ)
      → ((s : ℕ)
          → find k.files.directory name ≡ some s
          → IsStored d (k.files.headers s)
            × (length text ≤ (k.files.headers s).num_bytes)
            × (file_bytes d (k.files.headers s) 0 (length text) ≡ text))
      → Answers (record k { disk = d; r2 = 0 }) name 0 k'
      → k'.r2 ≢ minus_one
      → (k'' : CallState) × (handle_read_file into (length text) k'.r2 k' ≡ ok (some k''))
        × (k''.r2 ≡ length text)
        × (string_at k''.user into (length text) ≡ text)
  loads into holds refuses ne = absurd (ne refl)
  loads into holds (answers {slot} {sector} low free f) ne =
      let (v, room, same) = holds sector f in
      let file = open_file k.files.headers sector 0 in
      let bound = get_elem?-bound k.files.file_table slot free in
      let k₁ = returns slot (with_file slot (some file) (record k { disk = d; r2 = 0 })) in
      let count : get_count k₁ file (length text) ≡ length text = omega (arith, room) in
      let bytes : got k₁ file (length text) ≡ text =
        ap (file_bytes d (k.files.headers sector) 0) count ∙ same in
      let (user, e, s) =
        handle_read_file-Stored k₁ file into (length text) slot low (omega (arith, table, bound))
          (get_elem?-set_self k.files.file_table slot (some file) bound) refl v
          (omega (arith, fits)) (omega (arith, count)) (subst IsText (sym bytes) is_text) in
      (
        after_read k₁ file (length text) slot user,
        e,
        rw count (answered (length text) given),
        subst (λ bs. string_at user into (length bs) ≡ bs) bytes s.reads,
      )

-- What a file holds when a string has been saved in it.
abbrev pub Saved : CallState → List ℕ → List ℕ → Disk → Type 0
Saved k name text d =
    (s : ℕ)
    → find k.files.directory name ≡ some s
    → IsStored d (k.files.headers s)
      × (length text ≤ (k.files.headers s).num_bytes)
      × (file_bytes d (k.files.headers s) 0 (length text) ≡ text)

-- Saving: from an answer to a closed file.
saves :
    (garbage : ℕ → ℕ) (k : CallState) {k' : CallState} (name : List ℕ) (text_at len : ℕ)
    → length k.files.file_table ≡ files_in_table
    → length (string_at k.user text_at len) ≤ max_filecontent_len
    → ((s : ℕ)
        → find k.files.directory name ≡ some s
        → IsStored k.disk (k.files.headers s)
          × (length (string_at k.user text_at len) ≤ (k.files.headers s).num_bytes))
    → Answers k name 0 k'
    → k'.r2 ≢ minus_one
    → (k'' : CallState) × (d' : Disk) × (handle_write_file garbage text_at len k'.r2 k' ≡ ok k'')
      × (handle_close_file k'.r2 k'' ≡ ok (record k { disk = d'; r2 = 0 }))
      × Saved k name (string_at k.user text_at len) d'
saves garbage k name text_at len table short stored refuses ne = absurd (ne refl)
saves garbage k name text_at len table short stored (answers {slot} {sector} low free f) ne =
    let (v, room) = stored sector f in
    let text = string_at k.user text_at len in
    let file = open_file k.files.headers sector 0 in
    let slots = k.files.file_table in
    let bound = get_elem?-bound slots slot free in
    let k₁ = returns slot (with_file slot (some file) k) in
    let (d', e, o) =
      handle_write_file-Overwritten garbage k₁ file text_at len slot low
        (omega (arith, table, bound)) (get_elem?-set_self slots slot (some file) bound) v
        (omega (arith, short)) in
    let n = put_count k₁ file text_at len in
    let count : n ≡ length text = omega (arith, room) in
    let k₂ = moved n slot (record file { seek_position = 0 + n }) (record k₁ { disk = d' }) in
    let file' = record file { seek_position = if n == 0 then 0 else 0 + n } in
    let at : get_elem? k₂.files.file_table slot ≡ some (some file') =
      get_elem?-set_self (set slots slot (some file)) slot (some file')
        (omega (arith, bound, length-set slots slot (some file))) in
    let tables : set k₂.files.file_table slot none ≡ slots =
      set-set (set slots slot (some file)) slot (some file') none
      ∙ set-set slots slot (some file) none
      ∙ set_same slots slot free in
    let bytes : file_bytes d' (k.files.headers sector) 0 (length text) ≡ text =
      ap (file_bytes d' (k.files.headers sector) 0) (sym count)
      ∙ file_bytes-Overwritten k.disk d' (k.files.headers sector) (user2system k.user text_at len) n
          0 (omega (arith, count, length-user2system k.user text_at len)) o
      ∙ ap (λ m. take m (user2system k.user text_at len)) count
      ∙ take-user2system k.user text_at len in
    (
      k₂,
      d',
      e,
      close_taken k₂ slot file' low (omega (arith, table, bound)) at
          ∙ ap
              (λ t.
                ok (returns 0 (record k { files = record k.files { file_table = t }; disk = d' })))
              tables,
      λ s g.
          let here : sector ≡ s = cc (f, g) in
          subst
            (λ t.
              IsStored d' (k.files.headers t)
              × (length text ≤ (k.files.headers t).num_bytes)
              × (file_bytes d' (k.files.headers t) 0 (length text) ≡ text))
            here (o.stored, room, bytes),
    )

-- A program opens a file with type 0, writes a string to it, closes it, opens it again and reads as
-- many bytes. If OpenFile does not answer -1, the file's data are stored on the disk, the string is
-- not empty and has at most 2000 bytes, and the file is that long, then every call succeeds: the
-- last one answers the length of the string, and user memory has the string where it was to go.
pub save_load :
    (garbage : ℕ → ℕ) (k : CallState) (name_at text_at len into : ℕ)
    → length k.files.file_table ≡ files_in_table
    → (handle_open_file name_at 0 k).r2 ≢ minus_one
    → 0 < length (string_at k.user text_at len)
    → length (string_at k.user text_at len) ≤ max_filecontent_len
    → ((s : ℕ)
        → find k.files.directory (string_at k.user name_at max_filename_len) ≡ some s
        → IsStored k.disk (k.files.headers s)
          × (length (string_at k.user text_at len) ≤ (k.files.headers s).num_bytes))
    → (k₂ : CallState) × (k₃ : CallState) × (k₅ : CallState) × (handle_write_file garbage text_at
          len
          (handle_open_file name_at 0 k).r2
          (handle_open_file name_at 0 k)
        ≡ ok k₂)
      × (handle_close_file (handle_open_file name_at 0 k).r2 k₂ ≡ ok k₃)
      × (handle_read_file into
            (length (string_at k.user text_at len))
            (handle_open_file name_at 0 k₃).r2
            (handle_open_file name_at 0 k₃)
          ≡ ok (some k₅))
      × (k₅.r2 ≡ length (string_at k.user text_at len))
      × (string_at k₅.user into (length (string_at k.user text_at len))
          ≡ string_at k.user text_at len)
save_load garbage k name_at text_at len into table ne given fits stored =
    let name = string_at k.user name_at max_filename_len in
    let text = string_at k.user text_at len in
    let (k₂, d, e, c, saved) =
      saves garbage k name text_at len table fits stored
        (handle_open_file-Answers k name_at 0 (omega arith)) ne in
    let k₃ = record k { disk = d; r2 = 0 } in
    let (k₅, r, n, same) =
      loads k d name text table given fits (string_at-IsText k.user text_at len) into saved
        (handle_open_file-Answers k₃ name_at 0 (omega arith))
        (λ h. ne (sym (same_answer k d 0 name_at 0) ∙ h)) in
    (k₂, k₃, k₅, e, c, r, n, same)
