-- ===== src/LinkedList/Insert.antt =====
-- SortedInsert puts an element behind those whose keys are not larger.
use os_project2_nach_os.Base.{
  ℕ, zero, suc, ◌≤◌, ◌<◌, ◌≡◌, ◌≢◌, refl, sym, ap, ◌∙◌, true, false, List, [], ◌∷◌, Option, none,
  some, Result, ok, ◌>>=◌, length, ltb, Bool-cases, inl, inr, if◌then◌else◌, arith,
}
use os_project2_nach_os.LinkedList.{
  ListElement, LinkedList, update, deref, element, single, set_next, put_last, put_first,
  insert_after, sorted_insert,
}
use os_project2_nach_os.LinkedList.Chain.{
  Entry, NotIn, Distinct, Chain, last_address, Represents, update_other, update_same, Chain-update,
  allocated-ne, fresh-NotIn,
}
use os_project2_nach_os.LinkedList.Refine.{
  entry, put_last-ok, put_first-Represents, single-Represents, empty_first, nonempty_first,
}
use os_project2_nach_os.LinkedList.Sorted.{insert, IsSorted, insert-IsSorted, insert-Distinct}

step_end :
    (rounds : ℕ) (l : LinkedList) (p : Option ℕ) (x : Entry) (a : ℕ) (e : ListElement)
    → Chain l.heap p (x ∷ [])
    → insert_after (suc rounds) l p a e ≡ put_last l a e
unfolding insert_after
step_end rounds l p x a e (at, n, there, c) = rw (at, there, c)

step_pair :
    (rounds : ℕ) (l : LinkedList) (p : Option ℕ) (x y : Entry) (xs : List Entry) (a : ℕ)
    (e : ListElement)
    → Chain l.heap p (x ∷ y ∷ xs)
    → insert_after (suc rounds) l (some x.address) a e ≡ (
        if ltb e.key y.key
        then (set_next
              (update l.heap a (some (record e { next = some y.address })))
              (some x.address)
              (some a)
            >>= λ h. ok (record l { heap = h }))
        else insert_after rounds l (some y.address) a e)
unfolding insert_after
step_pair rounds l p x y xs a e (at, n, there, (at', n', there', c)) = rw (there, at', there')

step_before :
    (rounds : ℕ) (l : LinkedList) (p : Option ℕ) (x y : Entry) (xs : List Entry) (a : ℕ)
    (e : ListElement)
    → Chain l.heap p (x ∷ y ∷ xs)
    → ltb e.key y.key ≡ true
    → insert_after (suc rounds) l p a e ≡ (
        set_next
          (update l.heap a (some (record e { next = some y.address })))
          (some x.address)
          (some a)
        >>= λ h. ok (record l { heap = h }))
step_before rounds l p x y xs a e c before =
    ap (λ t. insert_after (suc rounds) l t a e) c.0 ∙ step_pair rounds l p x y xs a e c ∙ rw before

step_on :
    (rounds : ℕ) (l : LinkedList) (p : Option ℕ) (x y : Entry) (xs : List Entry) (a : ℕ)
    (e : ListElement)
    → Chain l.heap p (x ∷ y ∷ xs)
    → ltb e.key y.key ≡ false
    → insert_after (suc rounds) l p a e ≡ insert_after rounds l (some y.address) a e
step_on rounds l p x y xs a e c behind =
    ap (λ t. insert_after (suc rounds) l t a e) c.0 ∙ step_pair rounds l p x y xs a e c ∙ rw behind

-- What the loop does from the element x on, whose key is not larger than the new one.
record Inserted (l : LinkedList) (p : Option ℕ) (x : Entry) (xs : List Entry) (e : Entry)
    (l' : LinkedList) : Type 0 where
  same_first : l'.first ≡ l.first
  chain : Chain l'.heap p (x ∷ insert e xs)
  ends_at : l'.last ≡ last_address (x ∷ insert e xs)
  elsewhere : (a : ℕ) → NotIn a (x ∷ xs) → a ≢ e.address → l'.heap a ≡ l.heap a

insert_at_end :
    (rounds : ℕ) (l : LinkedList) (p : Option ℕ) (x : Entry) (e : Entry)
    → Chain l.heap p (x ∷ [])
    → l.last ≡ some x.address
    → l.heap e.address ≡ none
    → (l' : LinkedList) × (insert_after (suc rounds) l p e.address (element e.item e.key) ≡ ok l')
      × Inserted l p x [] e l'
insert_at_end rounds l p x e c ends free =
    let (z, at_q, done, longer) = put_last-ok l x.address (x ∷ []) p e c (tt, tt) ends refl free in
    (
      record l {
        last = some e.address;
        heap =
            update (update l.heap e.address (some (element e.item e.key))) x.address
              (some (record z { next = some e.address }));
      },
      step_end rounds l p x e.address (element e.item e.key) c ∙ done,
      record {
        same_first = refl;
        chain = longer;
        ends_at = refl;
        elsewhere = λ a out other.
            update_other (update l.heap e.address (some (element e.item e.key))) x.address a
              (some (record z { next = some e.address })) out.0
            ∙ update_other l.heap e.address a (some (element e.item e.key)) other;
      },
    )

insert_between :
    (rounds : ℕ) (l : LinkedList) (p : Option ℕ) (x y : Entry) (xs : List Entry) (e : Entry)
    → Chain l.heap p (x ∷ y ∷ xs)
    → Distinct (x ∷ y ∷ xs)
    → l.last ≡ last_address (y ∷ xs)
    → l.heap e.address ≡ none
    → ltb e.key y.key ≡ true
    → (l' : LinkedList) × (insert_after (suc rounds) l p e.address (element e.item e.key) ≡ ok l')
      × Inserted l p x (y ∷ xs) e l'
unfolding set_next
insert_between rounds l p x y xs e c d ends free before =
    let (at, n, there, later) = c in
    let new : Option ListElement =
      some (record { next = some y.address; key = e.key; item = e.item }) in
    let linked : Option ListElement =
      some (record { next = some e.address; key = x.key; item = x.item }) in
    let h1 = update l.heap e.address new in
    let apart = allocated-ne l.heap x.address e.address there free in
    let read : h1 x.address ≡ some (record { next = n; key = x.key; item = x.item }) =
      update_other l.heap e.address x.address new apart ∙ there in
    let tail = Chain-update h1 x.address linked n (y ∷ xs) d.0 (
      Chain-update l.heap e.address new n (y ∷ xs)
        (fresh-NotIn l.heap e.address n (y ∷ xs) free later) later) in
    (
      record l { heap = update h1 x.address linked },
      step_before rounds l p x y xs e.address (element e.item e.key) c before ∙ rw (read),
      record {
        same_first = refl;
        chain = rw (before) (
          at,
          some e.address,
          update_same h1 x.address linked,
          (
            refl,
            n,
            update_other h1 x.address e.address linked (λ q. apart (sym q))
                ∙ update_same l.heap e.address new
                ∙ ap {A = Option ℕ} {B = Option ListElement}
                    (λ k. some (record { next = k; key = e.key; item = e.item })) (sym later.0),
            tail,
          ),
        );
        ends_at = rw (before) ends;
        elsewhere = λ a out other.
            update_other h1 x.address a linked out.0 ∙ update_other l.heap e.address a new other;
      },
    )

insert_after-Inserted :
    (rounds : ℕ) (l : LinkedList) (p : Option ℕ) (x : Entry) (xs : List Entry) (e : Entry)
    → length xs < rounds
    → Chain l.heap p (x ∷ xs)
    → Distinct (x ∷ xs)
    → l.last ≡ last_address (x ∷ xs)
    → l.heap e.address ≡ none
    → (l' : LinkedList) × (insert_after rounds l p e.address (element e.item e.key) ≡ ok l')
      × Inserted l p x xs e l'
insert_after-Inserted zero l p x xs e few c d ends free = absurd (omega arith)
insert_after-Inserted (suc rounds) l p x [] e few c d ends free =
    insert_at_end rounds l p x e c ends free
insert_after-Inserted (suc rounds) l p x (y ∷ xs) e few c d ends free =
    elim (Bool-cases (ltb e.key y.key)) [
      | inl before ↦ insert_between rounds l p x y xs e c d ends free before
      | inr behind ↦
          let (at, n, there, later) = c in
          let (l', done, i) =
            insert_after-Inserted rounds l (some y.address) y xs e (omega arith)
              (refl, later.1, later.2, later.3) d.1 ends free in
          (
            l',
            step_on rounds l p x y xs e.address (element e.item e.key) c behind ∙ done,
            record {
              same_first = i.same_first;
              chain = rw (behind) (
                at,
                n,
                i.elsewhere x.address d.0 (allocated-ne l.heap x.address e.address there free)
                    ∙ there,
                (later.0, i.chain.1, i.chain.2, i.chain.3),
              );
              ends_at = rw (behind) i.ends_at;
              elsewhere = λ a out other. i.elsewhere a out.1 other;
            },
          )
    ]

at_first :
    (l : LinkedList) (x : Entry) (xs : List Entry) (rounds key item fresh : ℕ)
    → Represents l (x ∷ xs)
    → ltb key x.key ≡ false
    → (deref l.heap l.first >>= λ y.
        if ltb key y.key
        then ok (put_first l fresh (element item key))
        else insert_after rounds l l.first fresh (element item key))
      ≡ insert_after rounds l l.first fresh (element item key)
at_first l x xs rounds key item fresh r behind =
    let (at, n, there, later) = r.chain in
    let read : deref l.heap l.first ≡ ok (record { next = n; key = x.key; item = x.item }) =
      rw (at, there) in
    ap {A = Result ListElement} {B = Result LinkedList}
      (λ t. t >>= λ y.
        if ltb key y.key
        then ok (put_first l fresh (element item key))
        else insert_after rounds l l.first fresh (element item key))
      read
    ∙ rw behind

-- SortedInsert refines the insertion behind every element whose key is not larger, where `new`
-- returns an address that is free: it never fails, it ends within as many rounds as the list has
-- elements, and the elements are those of the abstract insertion, which keeps a sorted list sorted.
pub sorted_insert-Represents :
    (l : LinkedList) (xs : List Entry) (item key fresh rounds : ℕ)
    → Represents l xs
    → l.heap fresh ≡ none
    → length xs ≤ rounds
    → (l' : LinkedList) × (sorted_insert rounds l item key fresh ≡ ok l')
      × Represents l' (insert (entry fresh key item) xs)
      × (IsSorted xs → IsSorted (insert (entry fresh key item) xs))
unfolding sorted_insert
sorted_insert-Represents l [] item key fresh rounds r free enough = (
  single l fresh (element item key),
  rw (empty_first l r),
  single-Represents l (entry fresh key item),
  insert-IsSorted (entry fresh key item) [],
)
sorted_insert-Represents l (x ∷ xs) item key fresh rounds r free enough =
    let (at, n, there, later) = r.chain in
    elim (Bool-cases (ltb key x.key)) [
      | inl before ↦ (
        put_first l fresh (element item key),
        rw (nonempty_first l x xs r, at, there, before),
        rw (before) (put_first-Represents l x xs (entry fresh key item) r free),
        insert-IsSorted (entry fresh key item) (x ∷ xs),
      )
      | inr behind ↦
          let (l', done, i) =
            insert_after-Inserted rounds l l.first x xs (entry fresh key item) enough r.chain
              r.distinct r.ends_at free in
          (
            l',
            rw (nonempty_first l x xs r) (at_first l x xs rounds key item fresh r behind ∙ done),
            record {
              chain = rw (behind, i.same_first) i.chain;
              ends_at = rw (behind) i.ends_at;
              distinct =
                  insert-Distinct (entry fresh key item) (x ∷ xs)
                    (fresh-NotIn l.heap fresh l.first (x ∷ xs) free r.chain) r.distinct;
            },
            insert-IsSorted (entry fresh key item) (x ∷ xs),
          )
    ]
