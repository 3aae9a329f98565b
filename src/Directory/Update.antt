-- ===== src/Directory/Update.antt =====
-- Add and Remove, seen through Find.
use os_project2_nach_os.Base.{
  ℕ, ◌≡◌, ◌≢◌, refl, ap, ◌∙◌, sym, Bool, true, false, List, [], ◌∷◌, none, some, if◌then◌else◌,
  arith, Bool-cases, Option-cases, ◌⊎◌, inl, inr,
}
use os_project2_nach_os.Base.CString.{strncmp_eq-sym, strncmp_eq_trans}
use os_project2_nach_os.Directory.{
  DirectoryEntry, Directory, matches, find_index, find, place, add, remove, init, cleared,
  free_entry,
}
use os_project2_nach_os.Directory.Lookup.{
  same_name, lookup, drop_first, find-lookup, index-drop_first, index-none, index-lookup-none,
  lookup-same, freed_at,
}
use os_project2_nach_os.Directory.Names.{
  Distinct, IsFull, Placed, place-Placed, place-IsFull, IsFull-place, matches-unused,
}

find_index-cases :
    (d : Directory) (name : List ℕ)
    → ((find d name ≡ none) × (find_index d name ≡ none))
      ⊎ ((i : ℕ) × (find_index d name ≡ some i) × (find d name ≢ none))
unfolding find_index
find_index-cases d name = elim (Option-cases (find_index d name)) [
  | inl e ↦ inl (find-lookup d name ∙ index-none d.table name e, e)
  | inr (i, e) ↦
      inr (i, e, λ h. cc (e, index-lookup-none d.table name (sym (find-lookup d name) ∙ h)))
]

-- The outcomes of Add.
pub data Added (d : Directory) (name : List ℕ) (s : ℕ) : Bool × Directory → Type 0 where
  present : find d name ≢ none → Added d name s (false, d)
  full : find d name ≡ none → IsFull d.table → Added d name s (false, d)
  added :
      {d' : Directory}
      → find d name ≡ none
      → ¬ IsFull d.table
      → find d' name ≡ some s
      → ((other : List ℕ) → same_name name other ≡ false → find d' other ≡ find d other)
      → (Distinct d.table → Distinct d'.table)
      → Added d name s (true, d')

Placed-Added :
    (d : Directory) (name : List ℕ) (s : ℕ) (t : List DirectoryEntry)
    → find d name ≡ none
    → place d.table name s ≡ some t
    → Placed d.table name s t
    → Added d name s (true, record { table = t })
Placed-Added d name s t h e p =
    added h (λ f. cc (e, IsFull-place d.table name s f))
      (find-lookup (record { table = t }) name ∙ p.there)
      (λ other ne.
        find-lookup (record { table = t }) other ∙ p.others other ne ∙ sym (find-lookup d other))
      p.distinct

-- `add` refuses a name that the directory has, and refuses any name if every entry is in use,
-- leaving the directory as it was. Otherwise it succeeds: the name is found at the new sector,
-- every name that differs from it in the first nine bytes is found as before, and the entries in
-- use have distinct names if they had before.
pub add-Added : (d : Directory) (name : List ℕ) (s : ℕ) → Added d name s (add d name s)
unfolding add
add-Added d name s = elim (find_index-cases d name) [
  | inl (h, e) ↦ elim (Option-cases (place d.table name s)) [
    | inl none_left ↦ rw (e, add, none_left) (full h (place-IsFull d.table name s none_left))
    | inr (t, r) ↦
        rw (e, add, r)
          (Placed-Added d name s t h r
            (place-Placed d.table t name s (sym (find-lookup d name) ∙ h) r))
  ]
  | inr (i, e, ne) ↦ rw (e, add) (present ne)
]

-- To mark an entry unused finds no more names.
lookup-drop_first-none :
    (es : List DirectoryEntry) (name other : List ℕ)
    → lookup es other ≡ none
    → lookup (drop_first es name) other ≡ none
unfolding lookup drop_first
lookup-drop_first-none [] name other h = refl
lookup-drop_first-none (e ∷ es) name other h = ground (
  arith,
  matches-unused (record e { in_use = false }) other refl,
  lookup-drop_first-none es name other,
)

drop_first-Distinct :
    (es : List DirectoryEntry) (name : List ℕ) → Distinct es → Distinct (drop_first es name)
unfolding drop_first
drop_first-Distinct [] name d = tt
drop_first-Distinct (e ∷ es) name d = elim (Bool-cases (matches e name)) [
  | inl m ↦ rw m ((λ u. absurd (ground arith)), d.1)
  | inr m ↦
      rw m ((λ u. lookup-drop_first-none es name e.name (d.0 u)), drop_first-Distinct es name d.1)
]

-- An entry that matches a name is in use, and agrees with it.
matches_parts :
    (e : DirectoryEntry) (name : List ℕ)
    → matches e name ≡ true
    → (e.in_use ≡ true) × (same_name e.name name ≡ true)
unfolding matches
matches_parts e name h = ground arith

lookup-drop_first :
    (es : List DirectoryEntry) (name : List ℕ)
    → Distinct es
    → lookup (drop_first es name) name ≡ none
unfolding lookup drop_first
lookup-drop_first [] name d = refl
lookup-drop_first (e ∷ es) name d = elim (Bool-cases (matches e name)) [
  | inl m ↦
      rw (m, matches-unused (record e { in_use = false }) name refl)
        (sym (lookup-same es e.name name (matches_parts e name m).1)
          ∙ d.0 (matches_parts e name m).0)
  | inr m ↦ rw (m, m) (lookup-drop_first es name d.1)
]

no_match :
    (e : DirectoryEntry) (name other : List ℕ)
    → same_name name other ≡ false
    → matches e name ≡ true
    → matches e other ≡ false
unfolding matches
no_match e name other ne m =
    ground (arith, strncmp_eq-sym 9 e.name name, strncmp_eq_trans 9 name e.name other)

lookup-drop_first_other :
    (es : List DirectoryEntry) (name other : List ℕ)
    → same_name name other ≡ false
    → lookup (drop_first es name) other ≡ lookup es other
unfolding lookup drop_first
lookup-drop_first_other [] name other ne = refl
lookup-drop_first_other (e ∷ es) name other ne = elim (Bool-cases (matches e name)) [
  | inl m ↦
      rw (m, matches-unused (record e { in_use = false }) other refl, no_match e name other ne m)
  | inr m ↦ rw m (
      ap (λ r. if matches e other then some e.sector else r)
        (lookup-drop_first_other es name other ne))
]

-- The outcomes of Remove.
pub data Removed (d : Directory) (name : List ℕ) : Bool × Directory → Type 0 where
  missing : find d name ≡ none → Removed d name (false, d)
  removed :
      {d' : Directory}
      → find d name ≢ none
      → find d' name ≡ none
      → ((other : List ℕ) → same_name name other ≡ false → find d' other ≡ find d other)
      → Distinct d'.table
      → Removed d name (true, d')

free_entry_index :
    (d : Directory) (name : List ℕ) (i : ℕ)
    → find_index d name ≡ some i
    → free_entry d.table i ≡ drop_first d.table name
unfolding find_index
free_entry_index d name i e = sym (ap (freed_at d.table) e) ∙ index-drop_first d.table name

drop_first-Removed :
    (d : Directory) (name : List ℕ)
    → Distinct d.table
    → find d name ≢ none
    → Removed d name (true, record { table = drop_first d.table name })
drop_first-Removed d name u ne =
    let d' : Directory = record { table = drop_first d.table name } in
    removed ne (find-lookup d' name ∙ lookup-drop_first d.table name u)
      (λ other other_ne.
        find-lookup d' other
        ∙ lookup-drop_first_other d.table name other other_ne
        ∙ sym (find-lookup d other))
      (drop_first-Distinct d.table name u)

-- In a directory whose names in use are distinct, `remove` of a name that is not there fails and
-- changes nothing. Otherwise it succeeds: the name is not found any more, every name that differs
-- from it in the first nine bytes is found as before, and the names in use are still distinct.
pub remove-Removed :
    (d : Directory) (name : List ℕ) → Distinct d.table → Removed d name (remove d name)
unfolding remove
remove-Removed d name u = elim (find_index-cases d name) [
  | inl (h, e) ↦ rw (e, remove) (missing h)
  | inr (i, e, ne) ↦ rw (e, remove, free_entry_index d name i e) (drop_first-Removed d name u ne)
]

cleared-lookup : (es : List DirectoryEntry) (name : List ℕ) → lookup (cleared es) name ≡ none
unfolding lookup
cleared-lookup [] name = refl
cleared-lookup (e ∷ es) name =
    rw (matches-unused (record e { in_use = false }) name refl) (cleared-lookup es name)

cleared-Distinct : (es : List DirectoryEntry) → Distinct (cleared es)
cleared-Distinct [] = tt
cleared-Distinct (e ∷ es) = ((λ u. cleared-lookup es e.name), cleared-Distinct es)

-- Whatever the memory held, a new directory has no name in it.
pub init_empty :
    (garbage : List DirectoryEntry)
    → ((name : List ℕ) → find (init garbage) name ≡ none) × Distinct (init garbage).table
unfolding init
init_empty garbage = (
  (λ name. find-lookup (init garbage) name ∙ cleared-lookup garbage name),
  cleared-Distinct garbage,
)
