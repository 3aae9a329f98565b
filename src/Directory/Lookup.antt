-- ===== src/Directory/Lookup.antt =====
-- The table as a search list: what the index loops compute, by recursion on the entries.
use mathlib.Core.Option
use os_project2_nach_os.Base.{
  ℕ, suc, ◌+◌, ◌≡◌, refl, ap, ◌∙◌, sym, Bool, true, false, List, [], ◌∷◌, Option, none, some,
  get_elem?, if◌then◌else◌, arith, Bool-cases, inl, inr,
}
use os_project2_nach_os.Base.CString.{
  strncmp_eq, strncmp_eq-sym, strncmp_eq_trans, strncmp_eq-strncpy,
}
use os_project2_nach_os.Directory.{
  DirectoryEntry, Directory, matches, find_index_from, find_index, find, filled, free_entry,
}

-- Two names that the directory does not tell apart: they agree on their first nine bytes.
abbrev pub same_name : List ℕ → List ℕ → Bool
same_name a b = strncmp_eq a b 9

-- The sector of the first entry that matches.
unfoldable pub lookup : List DirectoryEntry → List ℕ → Option ℕ
lookup [] name = none
lookup (e ∷ es) name = if matches e name then some e.sector else lookup es name

-- The table with the first entry that matches marked unused.
unfoldable pub drop_first : List DirectoryEntry → List ℕ → List DirectoryEntry
drop_first [] name = []
drop_first (e ∷ es) name =
    if matches e name then record e { in_use = false } ∷ es else e ∷ drop_first es name

abbrev pub index : List DirectoryEntry → List ℕ → Option ℕ
index es name = find_index_from 0 es name

find_index_from-suc :
    (i : ℕ) (es : List DirectoryEntry) (name : List ℕ)
    → find_index_from (i + 1) es name ≡ Option.map suc (find_index_from i es name)
unfolding find_index_from
find_index_from-suc i [] name = refl
find_index_from-suc i (e ∷ es) name = elim (Bool-cases (matches e name)) [
  | inl m ↦ rw m (ap some (omega arith))
  | inr m ↦ rw m (find_index_from-suc (i + 1) es name)
]

abbrev sector_at : List DirectoryEntry → Option ℕ → Option ℕ
sector_at es o = elim o [
  | none ↦ none
  | some i ↦ elim (get_elem? es i) [ none ↦ none | some e ↦ some e.sector ]
]

sector_at-suc :
    (e : DirectoryEntry) (es : List DirectoryEntry) (o : Option ℕ)
    → sector_at (e ∷ es) (Option.map suc o) ≡ sector_at es o
sector_at-suc e es none = refl
sector_at-suc e es (some i) = refl

index-lookup :
    (es : List DirectoryEntry) (name : List ℕ) → sector_at es (index es name) ≡ lookup es name
unfolding find_index_from lookup
index-lookup [] name = refl
index-lookup (e ∷ es) name = elim (Bool-cases (matches e name)) [
  | inl m ↦ rw m
  | inr m ↦
      rw (m, find_index_from-suc 0 es name, sector_at-suc e es (index es name))
        (index-lookup es name)
]

pub find-lookup : (d : Directory) (name : List ℕ) → find d name ≡ lookup d.table name
unfolding find find_index
find-lookup d name = index-lookup d.table name

abbrev pub freed_at : List DirectoryEntry → Option ℕ → List DirectoryEntry
freed_at es o = elim o [ none ↦ es | some i ↦ free_entry es i ]

freed_at-suc :
    (e : DirectoryEntry) (es : List DirectoryEntry) (o : Option ℕ)
    → freed_at (e ∷ es) (Option.map suc o) ≡ e ∷ freed_at es o
freed_at-suc e es none = refl
freed_at-suc e es (some i) = refl

pub index-drop_first :
    (es : List DirectoryEntry) (name : List ℕ) → freed_at es (index es name) ≡ drop_first es name
unfolding find_index_from drop_first
index-drop_first [] name = refl
index-drop_first (e ∷ es) name = elim (Bool-cases (matches e name)) [
  | inl m ↦ rw m
  | inr m ↦
      rw (m, find_index_from-suc 0 es name, freed_at-suc e es (index es name))
        (ap (λ r. e ∷ r) (index-drop_first es name))
]

pub index-none :
    (es : List DirectoryEntry) (name : List ℕ) → index es name ≡ none → lookup es name ≡ none
index-none es name h = sym (index-lookup es name) ∙ rw h

pub index-lookup-none :
    (es : List DirectoryEntry) (name : List ℕ) → lookup es name ≡ none → index es name ≡ none
unfolding find_index_from lookup
index-lookup-none [] name h = refl
index-lookup-none (e ∷ es) name h = elim (Bool-cases (matches e name)) [
  | inl m ↦ ground arith
  | inr m ↦
      rw (m, find_index_from-suc 0 es name)
        (ap (Option.map suc) (index-lookup-none es name (ground arith)))
]

-- Names that agree are found alike.
pub matches-same :
    (e : DirectoryEntry) (a b : List ℕ) → same_name a b ≡ true → matches e a ≡ matches e b
unfolding matches
matches-same e a b h =
    ground
      (arith, strncmp_eq_trans 9 e.name a b, strncmp_eq_trans 9 e.name b a, strncmp_eq-sym 9 a b)

pub lookup-same :
    (es : List DirectoryEntry) (a b : List ℕ) → same_name a b ≡ true → lookup es a ≡ lookup es b
unfolding lookup
lookup-same [] a b h = refl
lookup-same (e ∷ es) a b h = rw (matches-same e a b h, lookup-same es a b h)

-- The entry that Add writes matches the names that the added one agrees with.
pub matches-filled :
    (e : DirectoryEntry) (name other : List ℕ) (s : ℕ)
    → matches (filled e name s) other ≡ same_name name other
unfolding matches
matches-filled e name other s = strncmp_eq-strncpy 9 e.name name other
