-- ===== src/Memory/Entries.antt =====
-- The entry of a page stays its entry once its bits are set.
use os_project2_nach_os.Base.{
  ℕ, zero, suc, ◌+◌, ◌≡◌, Bool, true, false, List, [], ◌∷◌, Option, none, some, sym, ◌∙◌,
  Option-cases, Bool-cases, inl, inr, ◌&&◌, ◌==◌, ◌≤◌, if◌then◌else◌, Result, ok, set, get_elem?,
  get_elem?-set_self, get_elem?-set_ne, length, ◌<◌, arith,
}
use os_project2_nach_os.Memory.{
  TranslationEntry, Lookup, entry_at, search_tlb, index_table, lookup, touch, store_in, tlb_size,
}

-- An element read is inside the list.
get_elem?-lt {ℓ} :
    {A : Type ℓ} (xs : List A) (i : ℕ) {a : A} → get_elem? xs i ≡ some a → i < length xs
get_elem?-lt [] i h = cc
get_elem?-lt (x ∷ xs) zero h = omega arith
get_elem?-lt (x ∷ xs) (suc i) h = omega (arith, get_elem?-lt xs i h)

-- What a search that found an entry knows of it.
index_table-found :
    (t : List TranslationEntry) (size vpn : ℕ) {i : ℕ} {e : TranslationEntry}
    → index_table t size vpn ≡ ok (entry_at i e)
    → (i ≡ vpn) × (get_elem? t vpn ≡ some e)
index_table-found t size vpn h = elim (Option-cases (get_elem? t vpn)) [
  | inl none_there ↦ ground (arith, none_there)
  | inr (e', there) ↦ ground (arith, there)
]

index_table-touch :
    (t : List TranslationEntry) (size vpn : ℕ) {i : ℕ} {e : TranslationEntry} (w : Bool)
    → index_table t size vpn ≡ ok (entry_at i e)
    → index_table (set t i (touch w e)) size vpn ≡ ok (entry_at i (touch w e))
index_table-touch t size vpn {i} {e} w h =
    let (same, there) = index_table-found t size vpn h in
    ground (arith, there, same, get_elem?-set_self t vpn (touch w e) (get_elem?-lt t vpn there))

search_tlb-step :
    (rounds from : ℕ) (t : List TranslationEntry) (vpn : ℕ) {e : TranslationEntry}
    → get_elem? t from ≡ some e
    → search_tlb (suc rounds) from t vpn ≡ (
        if e.valid && (e.virtual_page == vpn)
        then ok (entry_at from e)
        else search_tlb rounds (from + 1) t vpn)
unfolding search_tlb
search_tlb-step rounds from t vpn there = rw there

pub search_tlb-later :
    (rounds from : ℕ) (t : List TranslationEntry) (vpn : ℕ) {e : TranslationEntry}
    {r : Result Lookup}
    → get_elem? t from ≡ some e
    → (e.valid && (e.virtual_page == vpn)) ≡ false
    → search_tlb (suc rounds) from t vpn ≡ r
    → search_tlb rounds (from + 1) t vpn ≡ r
search_tlb-later rounds from t vpn there other h =
    sym (search_tlb-step rounds from t vpn there ∙ rw other) ∙ h

pub search_tlb-outside :
    (rounds from : ℕ) (t : List TranslationEntry) (vpn : ℕ) {r : Lookup}
    → get_elem? t from ≡ none
    → ¬ (search_tlb (suc rounds) from t vpn ≡ ok r)
unfolding search_tlb
search_tlb-outside rounds from t vpn outside h = ground (arith, outside)

search_tlb-found :
    (rounds from : ℕ) (t : List TranslationEntry) (vpn : ℕ) {i : ℕ} {e : TranslationEntry}
    → search_tlb rounds from t vpn ≡ ok (entry_at i e)
    → (from ≤ i) × (get_elem? t i ≡ some e) × ((e.valid && (e.virtual_page == vpn)) ≡ true)
unfolding search_tlb
search_tlb-found zero from t vpn h = cc
search_tlb-found (suc rounds) from t vpn {i} {e} h = elim (Option-cases (get_elem? t from)) [
  | inl outside ↦ absurd (search_tlb-outside rounds from t vpn outside h)
  | inr (e', there) ↦ elim (Bool-cases (e'.valid && (e'.virtual_page == vpn))) [
    | inl matching ↦ ground (arith, there, matching)
    | inr other ↦
        let later = search_tlb-later rounds from t vpn there other h in
        let (bound, there', matching) = search_tlb-found rounds (from + 1) t vpn later in
        (omega arith, there', matching)
  ]
]

-- The entry that the loop stops at is the one it found.
search_tlb-here :
    (rounds from : ℕ) (t : List TranslationEntry) (vpn : ℕ) {i : ℕ} {e e' : TranslationEntry}
    → get_elem? t from ≡ some e'
    → (e'.valid && (e'.virtual_page == vpn)) ≡ true
    → search_tlb (suc rounds) from t vpn ≡ ok (entry_at i e)
    → (i ≡ from) × (e ≡ e')
search_tlb-here rounds from t vpn there matching h =
    ground (arith, search_tlb-step rounds from t vpn there, matching)

search_tlb-touch_here :
    (rounds from : ℕ) (t : List TranslationEntry) (vpn : ℕ) {e : TranslationEntry} (w : Bool)
    → get_elem? t from ≡ some e
    → (e.valid && (e.virtual_page == vpn)) ≡ true
    → search_tlb (suc rounds) from (set t from (touch w e)) vpn ≡ ok (entry_at from (touch w e))
search_tlb-touch_here rounds from t vpn {e} w there matching =
    search_tlb-step rounds from (set t from (touch w e)) vpn
      (get_elem?-set_self t from (touch w e) (get_elem?-lt t from there))
    ∙ rw matching

search_tlb-touch :
    (rounds from : ℕ) (t : List TranslationEntry) (vpn : ℕ) {i : ℕ} {e : TranslationEntry}
    (w : Bool)
    → search_tlb rounds from t vpn ≡ ok (entry_at i e)
    → search_tlb rounds from (set t i (touch w e)) vpn ≡ ok (entry_at i (touch w e))
unfolding search_tlb
search_tlb-touch zero from t vpn w h = cc
search_tlb-touch (suc rounds) from t vpn {i} {e} w h = elim (Option-cases (get_elem? t from)) [
  | inl outside ↦ absurd (search_tlb-outside rounds from t vpn outside h)
  | inr (e', there) ↦ elim (Bool-cases (e'.valid && (e'.virtual_page == vpn))) [
    | inl matching ↦
        let (same, alike) = search_tlb-here rounds from t vpn there matching h in
        rw (same, alike) (search_tlb-touch_here rounds from t vpn w there matching)
    | inr other ↦
        let later = search_tlb-later rounds from t vpn there other h in
        let (bound, there', matching) = search_tlb-found rounds (from + 1) t vpn later in
        let kept : get_elem? (set t i (touch w e)) from ≡ some e' =
          get_elem?-set_ne t {i = i} {j = from} (touch w e) (λ q. absurd (omega (arith, q)))
          ∙ there in
        search_tlb-step rounds from (set t i (touch w e)) vpn kept
        ∙ rw (other) (search_tlb-touch rounds (from + 1) t vpn w later)
  ]
]

-- The tables after `entry` is written are searched as before.
pub lookup-touch :
    (tlb page_table : Option (List TranslationEntry)) (size vpn : ℕ) {i : ℕ} {e : TranslationEntry}
    (w : Bool)
    → lookup tlb page_table size vpn ≡ ok (entry_at i e)
    → lookup (store_in tlb i (touch w e)) (store_in page_table i (touch w e)) size vpn
      ≡ ok (entry_at i (touch w e))
lookup-touch none none size vpn w h = cc
lookup-touch (some t) (some p) size vpn w h = cc
lookup-touch none (some p) size vpn w h = index_table-touch p size vpn w h
lookup-touch (some t) none size vpn w h = search_tlb-touch tlb_size 0 t vpn w h
