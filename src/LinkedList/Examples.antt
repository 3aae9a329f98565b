-- ===== src/LinkedList/Examples.antt =====
-- A list of two elements in the heap, and the theorems at it.
use os_project2_nach_os.Base.{
  ℕ, ◌≡◌, refl, List, [], ◌∷◌, Option, none, some, Result, ok, ◌==◌, if◌then◌else◌, arith,
}
use os_project2_nach_os.LinkedList.{ListElement, LinkedList, sorted_insert, set_next}
use os_project2_nach_os.LinkedList.Chain.{Entry, Represents}
use os_project2_nach_os.LinkedList.Refine.{entry}
use os_project2_nach_os.LinkedList.Sorted.{insert, IsSorted}
use os_project2_nach_os.LinkedList.Insert.{sorted_insert-Represents}

abbrev cells : ℕ → Option ListElement
cells a =
    if a == 1
    then some (record { next = some 2; key = 10; item = 100 })
    else (if a == 2 then some (record { next = none; key = 20; item = 200 }) else none)

abbrev two : LinkedList
two = record { first = some 1; last = some 2; heap = cells }

abbrev entries : List Entry
entries = entry 1 10 100 ∷ entry 2 20 200 ∷ []

two-Represents : Represents two entries
two-Represents = record {
  chain = (refl, some 2, refl, (refl, none, refl, refl));
  ends_at = refl;
  distinct = ((λ q. absurd (omega (arith, q)), tt), (tt, tt));
}

abbrev heap_after : Result LinkedList → ℕ → Option ListElement
heap_after (ok l) a = l.heap a
heap_after r a = none

-- An element with the key 15 goes between the two.
inserted :
    heap_after (sorted_insert 2 two 150 15 3) 1
    ≡ some (record { next = some 3; key = 10; item = 100 })
unfolding sorted_insert set_next
inserted = refl

sorted_insert-Represents_example :
    (l' : LinkedList) × (sorted_insert 2 two 150 15 3 ≡ ok l')
    × Represents l' (insert (entry 3 15 150) entries)
    × (IsSorted entries → IsSorted (insert (entry 3 15 150) entries))
sorted_insert-Represents_example =
    sorted_insert-Represents two entries 150 15 3 2 two-Represents refl (omega arith)
