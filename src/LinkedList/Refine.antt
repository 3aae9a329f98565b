-- ===== src/LinkedList/Refine.antt =====
-- Append, Prepend and SortedRemove of threads/list.cc against the list of the elements in the heap.
use os_project2_nach_os.Base.{
  ℕ, ◌≡◌, ◌≢◌, refl, sym, ◌∙◌, true, false, List, [], ◌∷◌, ◌++◌, Option, none, some, ok, ◌==◌,
  arith,
}
use os_project2_nach_os.LinkedList.{
  ListElement, LinkedList, update, element, is_empty, single, set_next, put_last, put_first, append,
  prepend, sorted_remove,
}
use os_project2_nach_os.LinkedList.Chain.{
  Entry, NotIn, Distinct, Chain, last_address, Represents, update_other, update_same, Chain-update,
  allocated-ne, fresh-NotIn, last-ne, Chain-extend,
}

abbrev pub entry : ℕ → ℕ → ℕ → Entry
entry a k i = record { address = a; key = k; item = i }

pub last_address-append :
    (xs : List Entry) (e : Entry) → last_address (xs ++ e ∷ []) ≡ some e.address
last_address-append [] e = refl
last_address-append (x ∷ []) e = refl
last_address-append (x ∷ y ∷ xs) e = last_address-append (y ∷ xs) e

NotIn-append :
    (a : ℕ) (xs : List Entry) (e : Entry) → NotIn a xs → a ≢ e.address → NotIn a (xs ++ e ∷ [])
NotIn-append a [] e out other = (other, tt)
NotIn-append a (x ∷ xs) e out other = (out.0, NotIn-append a xs e out.1 other)

pub Distinct-append :
    (xs : List Entry) (e : Entry) → Distinct xs → NotIn e.address xs → Distinct (xs ++ e ∷ [])
Distinct-append [] e d out = (tt, tt)
Distinct-append (x ∷ xs) e d out =
    (NotIn-append x.address xs e d.0 (λ q. out.0 (sym q)), Distinct-append xs e d.1 out.1)

-- Putting an element behind the last one.
pub put_last-ok :
    (l : LinkedList) (q : ℕ) (xs : List Entry) (start : Option ℕ) (e : Entry)
    → Chain l.heap start xs
    → Distinct xs
    → l.last ≡ last_address xs
    → last_address xs ≡ some q
    → l.heap e.address ≡ none
    → (z : ListElement) × (l.heap q ≡ some z)
      × (put_last l e.address (element e.item e.key)
          ≡ ok (record l {
            last = some e.address;
            heap =
                update
                  (update l.heap e.address (some (element e.item e.key)))
                  q
                  (some (record z { next = some e.address }));
          }))
      × Chain
          (update
            (update l.heap e.address (some (element e.item e.key)))
            q
            (some (record z { next = some e.address })))
          start
          (xs ++ e ∷ [])
unfolding set_next
put_last-ok l q xs start e c d ends last free =
    let (z, at_q, longer) = Chain-extend l.heap start xs q e c d last free in
    let read : update l.heap e.address (some (element e.item e.key)) q ≡ some z =
      update_other l.heap e.address q (some (element e.item e.key))
        (allocated-ne l.heap q e.address at_q free)
      ∙ at_q in
    (z, at_q, rw (ends, last, read), longer)

pub single-Represents :
    (l : LinkedList) (e : Entry) → Represents (single l e.address (element e.item e.key)) (e ∷ [])
single-Represents l e = record {
  chain = (refl, none, update_same l.heap e.address (some (element e.item e.key)), refl);
  ends_at = refl;
  distinct = (tt, tt);
}

pub empty_first : (l : LinkedList) → Represents l [] → is_empty l ≡ true
empty_first l r = rw (r.chain)

pub nonempty_first :
    (l : LinkedList) (x : Entry) (xs : List Entry) → Represents l (x ∷ xs) → is_empty l ≡ false
nonempty_first l x xs r = rw (r.chain.0)

pub some_last : (x : Entry) (xs : List Entry) → (q : ℕ) × (last_address (x ∷ xs) ≡ some q)
some_last x [] = (x.address, refl)
some_last x (y ∷ xs) = some_last y xs

-- Append puts the item at the end, with the key 0, where `new` returns an address that is free; it
-- leaves the other elements, and never fails.
pub append-Represents :
    (l : LinkedList) (xs : List Entry) (item fresh : ℕ)
    → Represents l xs
    → l.heap fresh ≡ none
    → (l' : LinkedList) × (append l item fresh ≡ ok l')
      × Represents l' (xs ++ entry fresh 0 item ∷ [])
unfolding append
append-Represents l [] item fresh r free = (
  single l fresh (element item 0),
  rw (empty_first l r),
  single-Represents l (entry fresh 0 item),
)
append-Represents l (x ∷ xs) item fresh r free =
    let (q, last) = some_last x xs in
    let (z, at_q, done, longer) =
      put_last-ok l q (x ∷ xs) l.first (entry fresh 0 item) r.chain r.distinct r.ends_at last
        free in
    (
      record l {
        last = some fresh;
        heap =
            update (update l.heap fresh (some (element item 0))) q
              (some (record z { next = some fresh }));
      },
      rw (nonempty_first l x xs r) done,
      record {
        chain = longer;
        ends_at = sym (last_address-append (x ∷ xs) (entry fresh 0 item));
        distinct =
            Distinct-append (x ∷ xs) (entry fresh 0 item) r.distinct
              (fresh-NotIn l.heap fresh l.first (x ∷ xs) free r.chain);
      },
    )

pub put_first-Represents :
    (l : LinkedList) (x : Entry) (xs : List Entry) (e : Entry)
    → Represents l (x ∷ xs)
    → l.heap e.address ≡ none
    → Represents (put_first l e.address (element e.item e.key)) (e ∷ x ∷ xs)
put_first-Represents l x xs e r free =
    let out = fresh-NotIn l.heap e.address l.first (x ∷ xs) free r.chain in
    let new : Option ListElement = some (record { next = l.first; key = e.key; item = e.item }) in
    record {
      chain = (
        refl,
        l.first,
        update_same l.heap e.address new,
        Chain-update l.heap e.address new l.first (x ∷ xs) out r.chain,
      );
      ends_at = r.ends_at;
      distinct = (out, r.distinct);
    }

-- Prepend puts the item at the front, with the key 0, where `new` returns an address that is free.
pub prepend-Represents :
    (l : LinkedList) (xs : List Entry) (item fresh : ℕ)
    → Represents l xs
    → l.heap fresh ≡ none
    → Represents (prepend l item fresh) (entry fresh 0 item ∷ xs)
unfolding prepend
prepend-Represents l [] item fresh r free =
    rw (empty_first l r) (single-Represents l (entry fresh 0 item))
prepend-Represents l (x ∷ xs) item fresh r free =
    rw (nonempty_first l x xs r) (put_first-Represents l x xs (entry fresh 0 item) r free)

==_refl : (a : ℕ) → (a == a) ≡ true
==_refl a = ground arith

-- What SortedRemove returns, by the elements.
abbrev pub removed : List Entry → Option (ℕ × ℕ)
removed [] = none
removed (x ∷ xs) = some (x.item, x.key)

abbrev pub rest : List Entry → List Entry
rest [] = []
rest (x ∷ xs) = xs

-- SortedRemove never fails: it returns the item and the key of the first element and takes it off
-- the list, which then stands for the other elements; on an empty list it returns NULL.
pub sorted_remove-Represents :
    (l : LinkedList) (xs : List Entry)
    → Represents l xs
    → (l' : LinkedList) × (sorted_remove l ≡ ok (removed xs, l')) × Represents l' (rest xs)
unfolding sorted_remove
sorted_remove-Represents l [] r = (l, rw (r.chain), r)
sorted_remove-Represents l (x ∷ []) r =
    let (at, n, there, c) = r.chain in
    (
      record { first = none; last = none; heap = update l.heap x.address none },
      rw (at, there, r.ends_at, ==_refl x.address),
      record { chain = refl; ends_at = refl; distinct = tt },
    )
sorted_remove-Represents l (x ∷ y ∷ xs) r =
    let (at, n, there, c) = r.chain in
    let (out, d) = r.distinct in
    let (q, last) = some_last y xs in
    let apart : (x.address == q) ≡ false = ground (arith, last-ne (y ∷ xs) x.address q last out) in
    (
      record { first = n; last = l.last; heap = update l.heap x.address none },
      rw (at, there, r.ends_at, last, apart),
      record {
        chain = Chain-update l.heap x.address none n (y ∷ xs) out c;
        ends_at = r.ends_at;
        distinct = d;
      },
    )
