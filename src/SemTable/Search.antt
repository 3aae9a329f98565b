-- ===== src/SemTable/Search.antt =====
-- The search by name of userprog/stable.cc, against the slots that the bitmap marks.
use os_project2_nach_os.Base.{
  ℕ, zero, suc, ◌+◌, ◌<◌, ◌≡◌, refl, Bool, true, List, [], ◌∷◌, Option, none, some, ok, get_elem?,
  length, if◌then◌else◌, Bool-cases, inl, inr, arith,
}
use os_project2_nach_os.BitMap.Sets.{marked, IsValid, test-marked}
use os_project2_nach_os.SemTable.{Sem, SemTable, strcmp_eq, find_from}

-- A valid bitmap of ten bits and ten slots, with a semaphore in each that is marked.
pub record IsTable (t : SemTable) : Type 0 where
  pub valid : IsValid t.bm
  pub ten_bits : t.bm.num_bits ≡ 10
  pub ten_slots : length t.sem_tab ≡ 10
  pub filled :
      (i : ℕ) → i < 10 → marked t.bm i ≡ true → (s : Sem) × (get_elem? t.sem_tab i ≡ some (some s))

pub strcmp_eq_refl : (a : List ℕ) → strcmp_eq a a ≡ true
strcmp_eq_refl [] = refl
strcmp_eq_refl (a ∷ as_) = ground (arith, strcmp_eq_refl as_)

-- The semaphore of a slot, if it has that name.
abbrev pub named : Option (Option Sem) → List ℕ → Option ℕ
named none name = none
named (some none) name = none
named (some (some s)) name = if strcmp_eq name s.name then some s.sem else none

abbrev pub or_else : Option ℕ → Option ℕ → Option ℕ
or_else none b = b
or_else (some a) b = some a

-- The first of the marked slots, from i on, with that name.
abbrev pub first_named : ℕ → ℕ → (ℕ → Bool) → List (Option Sem) → List ℕ → Option ℕ
first_named zero i used tab name = none
first_named (suc rounds) i used tab name =
    or_else (if used i then named (get_elem? tab i) name else none)
      (first_named rounds (i + 1) used tab name)

pub find_from-first_named :
    (rounds i : ℕ) (t : SemTable) (name : List ℕ)
    → IsTable t
    → i + rounds ≡ 10
    → find_from rounds i t name ≡ ok (first_named rounds i (marked t.bm) t.sem_tab name)
unfolding find_from
find_from-first_named zero i t name h e = refl
find_from-first_named (suc rounds) i t name h e =
    let later = find_from-first_named rounds (i + 1) t name h (omega arith) in
    let reads = test-marked t.bm i h.valid (let n = h.ten_bits in omega (arith, n)) in
    elim (Bool-cases (marked t.bm i)) [
      | inl used ↦
          let (s, there) = h.filled i (omega arith) used in
          elim (Bool-cases (strcmp_eq name s.name)) [
            | inl same ↦ rw (reads, used, there, same)
            | inr other ↦ rw (reads, used, there, other) later
          ]
      | inr free ↦ rw (reads, free) later
    ]
