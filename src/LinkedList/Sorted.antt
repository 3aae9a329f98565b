-- ===== src/LinkedList/Sorted.antt =====
-- The insertion that SortedInsert is to make, and that it keeps a sorted list sorted.
use os_project2_nach_os.Base.{
  ℕ, ◌≤◌, ◌≢◌, sym, List, [], ◌∷◌, ltb, Bool-cases, inl, inr, if◌then◌else◌, arith,
}
use os_project2_nach_os.LinkedList.Chain.{Entry, NotIn, Distinct}

-- The list with the element in its place: behind every key that is not larger.
abbrev pub insert : Entry → List Entry → List Entry
insert e [] = e ∷ []
insert e (x ∷ xs) = if ltb e.key x.key then e ∷ x ∷ xs else x ∷ insert e xs

abbrev pub IsSorted : List Entry → Type 0
IsSorted [] = Unit
IsSorted (x ∷ []) = Unit
IsSorted (x ∷ y ∷ xs) = (x.key ≤ y.key) × IsSorted (y ∷ xs)

abbrev AtLeast : ℕ → List Entry → Type 0
AtLeast k [] = Unit
AtLeast k (x ∷ xs) = k ≤ x.key

cons-IsSorted : (x : Entry) (xs : List Entry) → AtLeast x.key xs → IsSorted xs → IsSorted (x ∷ xs)
cons-IsSorted x [] h s = tt
cons-IsSorted x (y ∷ xs) h s = (h, s)

IsSorted-head : (x : Entry) (xs : List Entry) → IsSorted (x ∷ xs) → AtLeast x.key xs × IsSorted xs
IsSorted-head x [] s = (tt, tt)
IsSorted-head x (y ∷ xs) s = s

insert-AtLeast :
    (k : ℕ) (e : Entry) (xs : List Entry) → k ≤ e.key → AtLeast k xs → AtLeast k (insert e xs)
insert-AtLeast k e [] he h = he
insert-AtLeast k e (x ∷ xs) he h = elim (Bool-cases (ltb e.key x.key)) [
  | inl before ↦ rw (before) he
  | inr behind ↦ rw (behind) h
]

-- The place is the right one: a sorted list stays sorted.
pub insert-IsSorted : (e : Entry) (xs : List Entry) → IsSorted xs → IsSorted (insert e xs)
insert-IsSorted e [] s = tt
insert-IsSorted e (x ∷ xs) s = elim (Bool-cases (ltb e.key x.key)) [
  | inl before ↦
      rw (before) (cons-IsSorted e (x ∷ xs) (let k : e.key ≤ x.key = ground (arith, before) in k) s)
  | inr behind ↦
      let (bound, sorted) = IsSorted-head x xs s in
      rw (behind) (
        cons-IsSorted x (insert e xs)
          (insert-AtLeast x.key e xs (let k : x.key ≤ e.key = ground (arith, behind) in k) bound)
          (insert-IsSorted e xs sorted))
]

NotIn-insert :
    (a : ℕ) (e : Entry) (xs : List Entry) → a ≢ e.address → NotIn a xs → NotIn a (insert e xs)
NotIn-insert a e [] other out = (other, tt)
NotIn-insert a e (x ∷ xs) other out = elim (Bool-cases (ltb e.key x.key)) [
  | inl before ↦ rw (before) (other, out)
  | inr behind ↦ rw (behind) (out.0, NotIn-insert a e xs other out.1)
]

pub insert-Distinct :
    (e : Entry) (xs : List Entry) → NotIn e.address xs → Distinct xs → Distinct (insert e xs)
insert-Distinct e [] out d = (tt, tt)
insert-Distinct e (x ∷ xs) out d = elim (Bool-cases (ltb e.key x.key)) [
  | inl before ↦ rw (before) (out, d)
  | inr behind ↦
      rw (behind)
        (NotIn-insert x.address e xs (λ q. out.0 (sym q)) d.0, insert-Distinct e xs out.1 d.1)
]
