-- ===== src/LinkedList/Chain.antt =====
-- What a list in the heap stands for: its elements in order, each with its address.
use os_project2_nach_os.Base.{
  ℕ, ◌≡◌, ◌≢◌, refl, sym, ap, ◌∙◌, List, [], ◌∷◌, ◌++◌, Option, none, some, Bool-cases, inl, inr,
  ◌==◌, arith,
}
use os_project2_nach_os.LinkedList.{ListElement, LinkedList, update}

-- An element of the abstract list.
pub record Entry : Type 0 where
  pub address : ℕ
  pub key : ℕ
  pub item : ℕ

abbrev pub NotIn : ℕ → List Entry → Type 0
NotIn a [] = Unit
NotIn a (x ∷ xs) = (a ≢ x.address) × NotIn a xs

abbrev pub Distinct : List Entry → Type 0
Distinct [] = Unit
Distinct (x ∷ xs) = NotIn x.address xs × Distinct xs

-- The elements that the pointers lead through, from p to NULL.
abbrev pub Chain : (ℕ → Option ListElement) → Option ℕ → List Entry → Type 0
Chain h p [] = p ≡ none
Chain h p (x ∷ xs) =
    (p ≡ some x.address)
    × (n : Option ℕ) × (h x.address ≡ some (record { next = n; key = x.key; item = x.item }))
    × Chain h n xs

abbrev pub last_address : List Entry → Option ℕ
last_address [] = none
last_address (x ∷ []) = some x.address
last_address (x ∷ y ∷ xs) = last_address (y ∷ xs)

pub record Represents (l : LinkedList) (xs : List Entry) : Type 0 where
  pub chain : Chain l.heap l.first xs
  pub ends_at : l.last ≡ last_address xs
  pub distinct : Distinct xs

pub update_other :
    (h : ℕ → Option ListElement) (a b : ℕ) (v : Option ListElement) → b ≢ a → update h a v b ≡ h b
update_other h a b v other = elim (Bool-cases (b == a)) [
  | inl same ↦ absurd (other (ground (arith, same)))
  | inr apart ↦ rw apart
]

pub update_same : (h : ℕ → Option ListElement) (a : ℕ) (v : Option ListElement) → update h a v a ≡ v
update_same h a v = ground arith

pub Chain-update :
    (h : ℕ → Option ListElement) (a : ℕ) (v : Option ListElement) (p : Option ℕ) (xs : List Entry)
    → NotIn a xs
    → Chain h p xs
    → Chain (update h a v) p xs
Chain-update h a v p [] out c = c
Chain-update h a v p (x ∷ xs) (other, out) (at, n, there, c) = (
  at,
  n,
  update_other h a x.address v (λ q. other (sym q)) ∙ there,
  Chain-update h a v n xs out c,
)

pub allocated-ne :
    (h : ℕ → Option ListElement) (a b : ℕ) {v : ListElement} → h a ≡ some v → h b ≡ none → a ≢ b
allocated-ne h a b there free q = absurd (some_none (sym there ∙ ap h q ∙ free))
  where
    some_none : {v : ListElement} → ◌≡◌ {A = Option ListElement} (some v) none → ⊥
    some_none q = cc

-- An address that is not allocated is not in the list.
pub fresh-NotIn :
    (h : ℕ → Option ListElement) (a : ℕ) (p : Option ℕ) (xs : List Entry)
    → h a ≡ none
    → Chain h p xs
    → NotIn a xs
fresh-NotIn h a p [] free c = tt
fresh-NotIn h a p (x ∷ xs) free (at, n, there, c) =
    (λ q. allocated-ne h x.address a there free (sym q), fresh-NotIn h a n xs free c)

-- The last address is one of the list's.
pub last-ne : (xs : List Entry) (a q : ℕ) → last_address xs ≡ some q → NotIn a xs → q ≢ a
last-ne [] a q h out same = cc
last-ne (x ∷ []) a q h out same = absurd (out.0 (ground (arith, h, same)))
last-ne (x ∷ y ∷ xs) a q h out same = last-ne (y ∷ xs) a q h out.1 same

-- A new element behind the last one.
pub Chain-extend :
    (h : ℕ → Option ListElement) (p : Option ℕ) (xs : List Entry) (q : ℕ) (e : Entry)
    → Chain h p xs
    → Distinct xs
    → last_address xs ≡ some q
    → h e.address ≡ none
    → (z : ListElement) × (h q ≡ some z)
      × Chain
          (update
            (update h e.address (some (record { next = none; key = e.key; item = e.item })))
            q
            (some (record z { next = some e.address })))
          p
          (xs ++ e ∷ [])
Chain-extend h p [] q e c d last free = cc
Chain-extend h p (x ∷ []) q e (at, n, there, c) d last free =
    let same : x.address ≡ q = ground (arith, last) in
    let at_q : h q ≡ some (record { next = n; key = x.key; item = x.item }) =
      ap h (sym same) ∙ there in
    let new : Option ListElement = some (record { next = none; key = e.key; item = e.item }) in
    let linked : Option ListElement =
      some (record { next = some e.address; key = x.key; item = x.item }) in
    let k = update h e.address new in
    (
      record { next = n; key = x.key; item = x.item },
      at_q,
      (
        at,
        some e.address,
        ap (update k q linked) same ∙ update_same k q linked,
        (
          refl,
          none,
          update_other k q e.address linked (λ r. allocated-ne h q e.address at_q free (sym r))
              ∙ update_same h e.address new,
          refl,
        ),
      ),
    )
Chain-extend h p (x ∷ y ∷ xs) q e (at, n, there, c) (out, d) last free =
    let (z, at_q, rest) = Chain-extend h n (y ∷ xs) q e c d last free in
    let new : Option ListElement = some (record { next = none; key = e.key; item = e.item }) in
    (
      z,
      at_q,
      (
        at,
        n,
        update_other (update h e.address new) q x.address
              (some (record z { next = some e.address }))
              (λ r. last-ne (y ∷ xs) x.address q last out (sym r))
            ∙ update_other h e.address x.address new (allocated-ne h x.address e.address there free)
            ∙ there,
        rest,
      ),
    )
