-- ===== src/FileSystem/Table.antt =====
-- The table of open files: Open takes its lowest free slot from 2 on.
use os_project2_nach_os.Base.{
  ℕ, zero, suc, ◌+◌, ◌≤◌, ◌<◌, ◌≡◌, length-drop, refl, ap, ◌∙◌, List, [], ◌∷◌, Option, none, some,
  get_elem?, set, drop, length, arith, Option-cases, ◌⊎◌, inl, inr,
}
use os_project2_nach_os.OpenFile.{OpenFile}
use os_project2_nach_os.Directory.{find}
use os_project2_nach_os.FileSystem.{
  FileSystem, open_file, free_slot_from, get_idx_free_slot, slot_for, open_typed,
}

-- Slot i of the table holds a file.
abbrev pub Taken : List (Option OpenFile) → ℕ → Type 0
Taken slots i = (f : OpenFile) × (get_elem? slots i ≡ some (some f))

-- The lowest free slot of a list, or none.
pub data Lowest (slots : List (Option OpenFile)) (from : ℕ) : Option ℕ → Type 0 where
  all_taken : ((i : ℕ) → from ≤ i → i < length slots → Taken slots i) → Lowest slots from none
  lowest :
      {i : ℕ}
      → from ≤ i
      → get_elem? slots i ≡ some none
      → ((j : ℕ) → from ≤ j → j < i → Taken slots j)
      → Lowest slots from (some i)

-- The search over what is left of the table from slot i on.
free_slot_from-Lowest :
    (slots rest : List (Option OpenFile)) (i : ℕ)
    → ((j : ℕ) → get_elem? slots (i + j) ≡ get_elem? rest j)
    → length slots ≤ i + length rest
    → Lowest slots i (free_slot_from i rest)
unfolding free_slot_from
free_slot_from-Lowest slots [] i same len = all_taken (λ j h k. absurd (omega arith))
free_slot_from-Lowest slots (none ∷ rest) i same len =
    lowest (omega arith) (ap (get_elem? slots) (omega arith) ∙ same 0)
      (λ j h k. absurd (omega arith))
free_slot_from-Lowest slots (some f ∷ rest) i same len = extend (
    free_slot_from-Lowest slots rest (i + 1)
      (λ j. ap (get_elem? slots) (omega arith) ∙ same (suc j)) (omega arith))
  where
    here : (j : ℕ) → i ≤ j → ¬ (i + 1 ≤ j) → Taken slots j
    here j h k = (f, ap (get_elem? slots) (omega arith) ∙ same 0)

    split : (j : ℕ) → i ≤ j → (j ≡ i) ⊎ (i + 1 ≤ j)
    split j h = omega arith

    extend : {r : Option ℕ} → Lowest slots (i + 1) r → Lowest slots i r
    extend (all_taken all) =
        all_taken
          (λ j h k. elim (split j h) [ inl e ↦ here j h (omega arith) | inr above ↦ all j above k ])
    extend (lowest h e all) =
        lowest (omega arith) e
          (λ j k l. elim (split j k) [ inl e ↦ here j k (omega arith) | inr above ↦ all j above l ])

get_elem?-drop :
    {A : Type 0} (n : ℕ) (xs : List A) (j : ℕ) → get_elem? xs (n + j) ≡ get_elem? (drop n xs) j
get_elem?-drop zero xs j = ap (get_elem? xs) (omega arith)
get_elem?-drop (suc n) [] j = refl
get_elem?-drop (suc n) (x ∷ xs) j =
    ap (get_elem? (x ∷ xs)) {x = suc n + j} {y = suc (n + j)} (omega arith) ∙ get_elem?-drop n xs j

-- `get_idx_free_slot` returns the lowest free slot from 2 on, and none if all are taken.
pub get_idx_free_slot-Lowest : (fs : FileSystem) → Lowest fs.file_table 2 (get_idx_free_slot fs)
unfolding get_idx_free_slot
get_idx_free_slot-Lowest fs =
    free_slot_from-Lowest fs.file_table (drop 2 fs.file_table) 2 (get_elem?-drop 2 fs.file_table)
      (omega (arith, length-drop 2 fs.file_table))

-- The outcomes of Open with type 0 or 1.
pub data Opened (fs : FileSystem) (name : List ℕ) (type : ℕ) : Option ℕ × FileSystem → Type 0 where
  no_slot :
      ((i : ℕ) → 2 ≤ i → i < length fs.file_table → Taken fs.file_table i)
      → Opened fs name type (none, fs)
  no_name : find fs.directory name ≡ none → Opened fs name type (none, fs)
  opened :
      {slot sector : ℕ}
      → 2 ≤ slot
      → get_elem? fs.file_table slot ≡ some none
      → ((j : ℕ) → 2 ≤ j → j < slot → Taken fs.file_table j)
      → find fs.directory name ≡ some sector
      → Opened fs name type (
        some slot,
        record fs { file_table = set fs.file_table slot (some (open_file fs.headers sector type)) },
      )

slot_for_low : (type : ℕ) (fs : FileSystem) → type < 2 → slot_for type fs ≡ get_idx_free_slot fs
slot_for_low type fs low = ground arith

with_slot :
    (fs : FileSystem) (name : List ℕ) (type : ℕ)
    → type < 2
    → {r : Option ℕ} → get_idx_free_slot fs ≡ r
    → Lowest fs.file_table 2 r
    → Opened fs name type (open_typed name type fs)
unfolding open_typed
with_slot fs name type low e (all_taken all) =
    rw (open_typed, slot_for_low type fs low, e) (no_slot all)
with_slot fs name type low e (lowest h free all) = elim (Option-cases (find fs.directory name)) [
  | inl new ↦ rw (open_typed, slot_for_low type fs low, e, new) (no_name new)
  | inr (s, f) ↦ rw (open_typed, slot_for_low type fs low, e, f) (opened h free all f)
]

-- With type 0 or 1, `open_typed` answers none, and changes nothing, if every slot from 2 on is taken
-- or the directory does not have the name. Otherwise it answers the lowest slot from 2 on that is
-- free, and puts there the file with that name's header, at position 0 and of that type; nothing
-- else changes.
pub open_typed-Opened :
    (fs : FileSystem) (name : List ℕ) (type : ℕ)
    → type < 2
    → Opened fs name type (open_typed name type fs)
unfolding open_typed
open_typed-Opened fs name type low = with_slot fs name type low refl (get_idx_free_slot-Lowest fs)
