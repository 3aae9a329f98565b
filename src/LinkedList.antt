-- ===== src/LinkedList.antt =====
-- nachos/nachos-3.4/code/threads/list.h and list.cc: the singly linked list of the kernel, with its
-- elements in a heap. An address is a number, NULL is `none`, and the address that `new` returns is
-- an argument. A sort key is a time, which is not negative. Mapcar, which calls back for each item,
-- is left out.
pub mod Chain
pub mod Refine
pub mod Sorted
pub mod Insert
mod Examples
use os_project2_nach_os.Base.{
  ℕ, zero, suc, Bool, true, false, List, Option, none, some, Result, ok, err, or_wild,
  out_of_rounds, ◌>>=◌, ltb, ◌==◌, if◌then◌else◌,
}

pub record ListElement : Type 0 where
  pub next : Option ℕ
  pub key : ℕ
  pub item : ℕ

-- The object and the memory that holds its elements.
pub record LinkedList : Type 0 where
  pub first : Option ℕ
  pub last : Option ℕ
  pub heap : ℕ → Option ListElement

abbrev pub update : (ℕ → Option ListElement) → ℕ → Option ListElement → ℕ → Option ListElement
update h a v b = if b == a then v else h b

-- *p
abbrev pub deref : (ℕ → Option ListElement) → Option ℕ → Result ListElement
deref h p = or_wild p >>= λ a. or_wild (h a)

abbrev pub same_pointer : Option ℕ → Option ℕ → Bool
same_pointer none none = true
same_pointer none (some b) = false
same_pointer (some a) none = false
same_pointer (some a) (some b) = a == b

-- ListElement::ListElement
abbrev pub element : ℕ → ℕ → ListElement
element item key = record { next = none; key = key; item = item }

abbrev pub init : (ℕ → Option ListElement) → LinkedList
init h = record { first = none; last = none; heap = h }

abbrev pub is_empty : LinkedList → Bool
is_empty l = elim l.first [ none ↦ true | some a ↦ false ]

-- The new element as the only one.
abbrev pub single : LinkedList → ℕ → ListElement → LinkedList
single l fresh e = record {
  first = some fresh;
  last = some fresh;
  heap = update l.heap fresh (some e);
}

-- p->next = n
unfoldable pub set_next :
    (ℕ → Option ListElement) → Option ℕ → Option ℕ → Result (ℕ → Option ListElement)
set_next h p n =
    or_wild p >>= λ a. or_wild (h a) >>= λ x. ok (update h a (some (record x { next = n })))

-- last->next = element; last = element;
abbrev pub put_last : LinkedList → ℕ → ListElement → Result LinkedList
put_last l fresh e = set_next (update l.heap fresh (some e)) l.last (some fresh) >>= λ h.
    ok (record l { last = some fresh; heap = h })

unfoldable pub append : LinkedList → ℕ → ℕ → Result LinkedList
append l item fresh =
    if is_empty l then ok (single l fresh (element item 0)) else put_last l fresh (element item 0)

abbrev pub put_first : LinkedList → ℕ → ListElement → LinkedList
put_first l fresh e = record l {
  first = some fresh;
  heap = update l.heap fresh (some (record e { next = l.first }));
}

unfoldable pub prepend : LinkedList → ℕ → ℕ → LinkedList
prepend l item fresh =
    if is_empty l then single l fresh (element item 0) else put_first l fresh (element item 0)

-- The loop of SortedInsert, at `ptr`.
unfoldable pub insert_after : ℕ → LinkedList → Option ℕ → ℕ → ListElement → Result LinkedList
insert_after zero l ptr fresh e = err out_of_rounds
insert_after (suc rounds) l ptr fresh e = deref l.heap ptr >>= λ x. elim x.next [
  | none ↦ put_last l fresh e
  | some n ↦
      let later = insert_after rounds l (some n) fresh e in
      deref l.heap (some n) >>= λ y.
      if ltb e.key y.key
      then (set_next (update l.heap fresh (some (record e { next = some n }))) ptr (some fresh)
          >>= λ h. ok (record l { heap = h }))
      else later
]

unfoldable pub sorted_insert : ℕ → LinkedList → ℕ → ℕ → ℕ → Result LinkedList
unfolding insert_after
sorted_insert rounds l item key fresh =
    if is_empty l
    then ok (single l fresh (element item key))
    else (deref l.heap l.first >>= λ x.
        if ltb key x.key
        then ok (put_first l fresh (element item key))
        else insert_after rounds l l.first fresh (element item key))

-- SortedRemove: the item with its key, if there is one. `delete` takes the element off the heap.
unfoldable pub sorted_remove : LinkedList → Result (Option (ℕ × ℕ) × LinkedList)
sorted_remove l = elim l.first [
  | none ↦ ok (none, l)
  | some p ↦ or_wild (l.heap p) >>= λ x. ok (
    some (x.item, x.key),
    record {
      first = if same_pointer l.first l.last then none else x.next;
      last = if same_pointer l.first l.last then none else l.last;
      heap = update l.heap p none;
    },
  )
]
