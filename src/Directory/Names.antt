-- ===== src/Directory/Names.antt =====
-- The directory as a map from names to sectors: what Add and Remove do to Find, and that no name
-- is ever in it twice.
use os_project2_nach_os.Base.{
  ℕ, ◌≡◌, refl, ap, ◌∙◌, true, false, List, [], ◌∷◌, none, some, if◌then◌else◌, arith, Bool-cases,
  Option-cases, inl, inr,
}
use os_project2_nach_os.Base.CString.{strncmp_eq_refl, strncmp_eq-sym, strncmp_eq-strncpy, strncpy}
use mathlib.Core.Path.{subst}
use os_project2_nach_os.Directory.{DirectoryEntry, matches, filled, place}
use os_project2_nach_os.Directory.Lookup.{same_name, lookup, lookup-same, matches-filled}

-- No two entries in use agree in name.
abbrev pub Distinct : List DirectoryEntry → Type 0
Distinct [] = Unit {0}
Distinct (e ∷ es) = (e.in_use ≡ true → lookup es e.name ≡ none) × Distinct es

-- Every entry is in use.
abbrev pub IsFull : List DirectoryEntry → Type 0
IsFull [] = Unit {0}
IsFull (e ∷ es) = (e.in_use ≡ true) × IsFull es

-- A name that the table lacks matches no entry of it.
pub matches-lookup-none :
    (e : DirectoryEntry) (es : List DirectoryEntry) (name : List ℕ)
    → lookup (e ∷ es) name ≡ none
    → (matches e name ≡ false) × (lookup es name ≡ none)
unfolding lookup
matches-lookup-none e es name h = ground arith

-- An unused entry matches nothing.
pub matches-unused :
    (e : DirectoryEntry) (name : List ℕ) → e.in_use ≡ false → matches e name ≡ false
unfolding matches
matches-unused e name h = rw h

-- An entry in use matches the names that agree with its own.
matches-used :
    (e : DirectoryEntry) (name : List ℕ)
    → e.in_use ≡ true
    → same_name name e.name ≡ true
    → matches e name ≡ true
unfolding matches
matches-used e name h k = ground (arith, strncmp_eq-sym 9 name e.name)

pub matches_clash :
    (e : DirectoryEntry) (es : List DirectoryEntry) (name : List ℕ)
    → lookup (e ∷ es) name ≡ none
    → e.in_use ≡ true
    → same_name name e.name ≡ true
    → ⊥
matches_clash e es name h u k = cc (matches-used e name u k, (matches-lookup-none e es name h).0)

-- What Add's loop makes of a table that lacks the name.
pub record Placed (es : List DirectoryEntry) (name : List ℕ) (s : ℕ) (es' : List DirectoryEntry)
    : Type 0 where
  pub there : lookup es' name ≡ some s
  pub others : (other : List ℕ) → same_name name other ≡ false → lookup es' other ≡ lookup es other
  pub distinct : Distinct es → Distinct es'

Placed-here :
    (x : DirectoryEntry) (es : List DirectoryEntry) (name : List ℕ) (s : ℕ)
    → x.in_use ≡ false
    → lookup es name ≡ none
    → Placed (x ∷ es) name s (filled x name s ∷ es)
unfolding lookup
Placed-here x es name s free h = record {
  there = rw (matches-filled x name name s, strncmp_eq_refl 9 name);
  others = λ other ne. rw (matches-filled x name other s, ne, matches-unused x other free);
  distinct = λ d. (
    (λ u.
        lookup-same es (strncpy x.name name 9) name
          (strncmp_eq-strncpy 9 x.name name name ∙ strncmp_eq_refl 9 name)
        ∙ h),
    d.1,
  );
}

Placed-later :
    (x : DirectoryEntry) (es t : List DirectoryEntry) (name : List ℕ) (s : ℕ)
    → lookup (x ∷ es) name ≡ none
    → Placed es name s t
    → Placed (x ∷ es) name s (x ∷ t)
unfolding lookup
Placed-later x es t name s h p = record {
  there = rw ((matches-lookup-none x es name h).0) (p.there);
  others = λ other ne. ap (λ r. if matches x other then some x.sector else r) (p.others other ne);
  distinct = λ d. (
    (λ u. elim (Bool-cases (same_name name x.name)) [
      | inl hit ↦ absurd (matches_clash x es name h u hit)
      | inr miss ↦ p.others x.name miss ∙ d.0 u
    ]),
    p.distinct d.1,
  );
}

pub place-Placed :
    (es es' : List DirectoryEntry) (name : List ℕ) (s : ℕ)
    → lookup es name ≡ none
    → place es name s ≡ some es'
    → Placed es name s es'
unfolding place
place-Placed [] es' name s h e = cc
place-Placed (x ∷ es) es' name s h e = elim (Bool-cases x.in_use) [
  | inl used ↦ elim (Option-cases (place es name s)) [
    | inl full ↦ absurd (ground arith)
    | inr (t, r) ↦
        subst (λ z. Placed (x ∷ es) name s z) (ground arith)
          (Placed-later x es t name s h
            (place-Placed es t name s (matches-lookup-none x es name h).1 r))
  ]
  | inr free ↦
      subst (λ z. Placed (x ∷ es) name s z) (ground arith)
        (Placed-here x es name s free (matches-lookup-none x es name h).1)
]

-- Where the loop places nothing, every entry is in use.
pub place-IsFull :
    (es : List DirectoryEntry) (name : List ℕ) (s : ℕ) → place es name s ≡ none → IsFull es
unfolding place
place-IsFull [] name s e = tt
place-IsFull (x ∷ es) name s e = elim (Bool-cases x.in_use) [
  | inl used ↦ elim (Option-cases (place es name s)) [
    | inl full ↦ (used, place-IsFull es name s full)
    | inr (t, r) ↦ absurd (ground arith)
  ]
  | inr free ↦ absurd (ground arith)
]

pub IsFull-place :
    (es : List DirectoryEntry) (name : List ℕ) (s : ℕ) → IsFull es → place es name s ≡ none
unfolding place
IsFull-place [] name s f = refl
IsFull-place (x ∷ es) name s f = rw (f.0, IsFull-place es name s f.1)
