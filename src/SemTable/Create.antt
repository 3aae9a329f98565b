-- ===== src/SemTable/Create.antt =====
-- What Create of userprog/stable.cc does to the search by name.
use os_project2_nach_os.Base.{
  ℕ, zero, suc, ◌+◌, ◌≤◌, ◌<◌, ◌≡◌, ◌≢◌, refl, sym, ap, ◌∙◌, subst, Bool, true, false, List, Option,
  none, some, get_elem?, set, length, get_elem?-set_self, get_elem?-set_ne, ◌==◌, if◌then◌else◌,
  Bool-cases, inl, inr, arith,
}
use os_project2_nach_os.SemTable.{Sem, strcmp_eq}
use os_project2_nach_os.SemTable.Search.{named, or_else, first_named}

-- One slot more, id, in use by the semaphore x.
module _ (f f' : ℕ → Bool) (tab : List (Option Sem)) (id : ℕ) (x : Sem)
    (same_bits : (j : ℕ) → f' j ≡ (if j == id then true else f j)) (in_tab : id < length tab)
    (name : List ℕ) where
  abbrev at_slot : (ℕ → Bool) → List (Option Sem) → ℕ → Option ℕ
  at_slot g ts i = if g i then named (get_elem? ts i) name else none

  at_slot-new :
      at_slot f' (set tab id (some x)) id ≡ (if strcmp_eq name x.name then some x.sem else none)
  at_slot-new =
      let used : f' id ≡ true = (let b = same_bits id in ground (arith, b)) in
      rw (used, get_elem?-set_self tab id (some x) in_tab)

  at_slot-old : (i : ℕ) → i ≢ id → at_slot f' (set tab id (some x)) i ≡ at_slot f tab i
  at_slot-old i ne =
      let same : f' i ≡ f i = (let b = same_bits i in ground (arith, b, ne)) in
      rw (same, get_elem?-set_ne tab (some x) (λ e. ne (sym e)))

  pub first_named-other :
      (rounds i : ℕ)
      → f id ≡ false
      → strcmp_eq name x.name ≡ false
      → first_named rounds i f' (set tab id (some x)) name ≡ first_named rounds i f tab name
  first_named-other zero i free other = refl
  first_named-other (suc rounds) i free other =
      let later = first_named-other rounds (i + 1) free other in
      elim (Bool-cases (i == id)) [
        | inl e ↦
            let q : i ≡ id = ground (arith, e) in
            let new : at_slot f' (set tab id (some x)) i ≡ none =
              subst (λ j. at_slot f' (set tab id (some x)) j ≡ none) (sym q)
                (at_slot-new ∙ rw (other)) in
            let old : at_slot f tab i ≡ none =
              subst (λ j. at_slot f tab j ≡ none) (sym q) (rw (free)) in
            ap (λ a. or_else a (first_named rounds (i + 1) f' (set tab id (some x)) name)) new
            ∙ later
            ∙ ap (λ a. or_else a (first_named rounds (i + 1) f tab name)) (sym old)
        | inr e ↦
            let q : i ≢ id = (λ z. absurd (let w : ⊥ = ground (arith, e, z) in w)) in
            ap (λ a. or_else a (first_named rounds (i + 1) f' (set tab id (some x)) name))
              (at_slot-old i q)
            ∙ ap (or_else (at_slot f tab i)) later
      ]

  none-or_else : (a b : Option ℕ) → or_else a b ≡ none → (a ≡ none) × (b ≡ none)
  none-or_else none b h = (refl, h)
  none-or_else (some y) b h = cc

  pub first_named-new :
      (rounds i : ℕ)
      → i ≤ id
      → id < i + rounds
      → first_named rounds i f tab name ≡ none
      → strcmp_eq name x.name ≡ true
      → first_named rounds i f' (set tab id (some x)) name ≡ some x.sem
  first_named-new zero i low high absent same = absurd (omega arith)
  first_named-new (suc rounds) i low high absent same =
      let parts = none-or_else (at_slot f tab i) (first_named rounds (i + 1) f tab name) absent in
      elim (Bool-cases (i == id)) [
        | inl e ↦
            let q : i ≡ id = ground (arith, e) in
            let new : at_slot f' (set tab id (some x)) i ≡ some x.sem =
              subst (λ j. at_slot f' (set tab id (some x)) j ≡ some x.sem) (sym q)
                (at_slot-new ∙ rw (same)) in
            ap (λ a. or_else a (first_named rounds (i + 1) f' (set tab id (some x)) name)) new
        | inr e ↦
            let q : i ≢ id = (λ z. absurd (let w : ⊥ = ground (arith, e, z) in w)) in
            ap (λ a. or_else a (first_named rounds (i + 1) f' (set tab id (some x)) name))
              (at_slot-old i q ∙ parts.0)
            ∙ first_named-new rounds (i + 1) (omega (arith, q)) (omega arith) parts.1 same
      ]
