-- ===== src/BitMap/Search.antt =====
-- FindFreeSlot and NumClear against the bits that the map holds.
use os_project2_nach_os.Base.{
  ℕ, zero, suc, ◌+◌, ◌≤◌, ◌<◌, ◌≡◌, refl, ap, ◌∙◌, Bool, true, false, Option, none, some, ok, ltb,
  ◌==◌, if◌then◌else◌, arith, Bool-cases, inl, inr,
}
use os_project2_nach_os.BitMap.{BitMap, find_from, find_free_slot, count_from, num_clear}
use os_project2_nach_os.BitMap.Sets.{marked, IsValid, Sets, test-marked, mark-Sets}

-- What a search from bit i on returns: the lowest clear bit, now set, or none if all are set.
pub data FreeSlot (b : BitMap) (i : ℕ) : Option ℕ × BitMap → Type 0 where
  full : ((j : ℕ) → i ≤ j → j < b.num_bits → marked b j ≡ true) → FreeSlot b i (none, b)
  slot :
      {s : ℕ} {b' : BitMap}
      → i ≤ s
      → s < b.num_bits
      → marked b s ≡ false
      → ((j : ℕ) → i ≤ j → j < s → marked b j ≡ true)
      → Sets b s true b'
      → FreeSlot b i (some s, b')

FreeSlot-skip :
    {b : BitMap} {i : ℕ} {r : Option ℕ × BitMap}
    → marked b i ≡ true
    → FreeSlot b (i + 1) r
    → FreeSlot b i r
FreeSlot-skip {b} {i} m (full all) = full (λ j hi hj. elim (Bool-cases (j == i)) [
  | inl e ↦ ground arith
  | inr e ↦ all j (ground arith) hj
])
FreeSlot-skip {b} {i} m (slot hi hs c all st) =
    slot (omega arith) hs c
      (λ j hj hs'. elim (Bool-cases (j == i)) [
        | inl e ↦ ground arith
        | inr e ↦ all j (ground arith) hs'
      ])
      st

find_from-FreeSlot :
    (rounds i : ℕ) (b : BitMap)
    → IsValid b
    → i + rounds ≡ b.num_bits
    → (r : Option ℕ × BitMap) × (find_from rounds i b ≡ ok r) × FreeSlot b i r
unfolding find_from
find_from-FreeSlot zero i b v h = ((none, b), refl, full (λ j hi hj. absurd (omega arith)))
find_from-FreeSlot (suc rounds) i b v h = elim (Bool-cases (marked b i)) [
  | inl used ↦
      let (r, e, fs) = find_from-FreeSlot rounds (i + 1) b v (omega arith) in
      (r, rw (test-marked b i v (omega arith), used, e), FreeSlot-skip used fs)
  | inr free ↦
      let (b', e, st) = mark-Sets b i v (omega arith) in
      (
        (some i, b'),
        rw (test-marked b i v (omega arith), free, e),
        slot (omega arith) (omega arith) free (λ j hi hj. absurd (omega arith)) st,
      )
]

-- On a valid map `find_free_slot` ends without a fault. It returns the lowest clear bit and sets
-- it, and no other bit changes; it returns none, with the map as it was, if every bit is set.
pub find_free_slot-FreeSlot :
    (b : BitMap) → IsValid b → (r : Option ℕ × BitMap) × (find_free_slot b ≡ ok r) × FreeSlot b 0 r
unfolding find_free_slot
find_free_slot-FreeSlot b v = find_from-FreeSlot b.num_bits 0 b v (omega arith)

-- How many of the bits i, ..., i + rounds - 1 of f are clear.
unfoldable pub count_clear : (ℕ → Bool) → ℕ → ℕ → ℕ
count_clear f i zero = 0
count_clear f i (suc rounds) = (if f i then 0 else 1) + count_clear f (i + 1) rounds

-- The clear bits of a map.
abbrev pub clear_bits : BitMap → ℕ
clear_bits b = count_clear (marked b) 0 b.num_bits

count_from-count_clear :
    (rounds i count : ℕ) (b : BitMap)
    → IsValid b
    → i + rounds ≡ b.num_bits
    → count_from rounds i count b ≡ ok (count + count_clear (marked b) i rounds)
unfolding count_from count_clear
count_from-count_clear zero i count b v h = ap ok (omega arith)
count_from-count_clear (suc rounds) i count b v h = elim (Bool-cases (marked b i)) [
  | inl used ↦
      rw (test-marked b i v (omega arith), used)
        (count_from-count_clear rounds (i + 1) count b v (omega arith) ∙ ap ok (omega arith))
  | inr free ↦
      rw (test-marked b i v (omega arith), free)
        (count_from-count_clear rounds (i + 1) (count + 1) b v (omega arith) ∙ ap ok (omega arith))
]

-- `num_clear` is the number of clear bits of a valid map.
pub num_clear-clear_bits : (b : BitMap) → IsValid b → num_clear b ≡ ok (clear_bits b)
unfolding num_clear
num_clear-clear_bits b v =
    count_from-count_clear b.num_bits 0 0 b v (omega arith) ∙ ap ok (omega arith)

count_clear-above :
    (f g : ℕ → Bool) (i rounds s : ℕ) (x : Bool)
    → ((j : ℕ) → g j ≡ (if j == s then x else f j))
    → s < i
    → count_clear g i rounds ≡ count_clear f i rounds
unfolding count_clear
count_clear-above f g i zero s x h below = refl
count_clear-above f g i (suc rounds) s x h below =
    ground (arith, h i, count_clear-above f g (i + 1) rounds s x h (omega arith))

-- To set a clear bit takes one off the count.
pub count_clear-set :
    (f g : ℕ → Bool) (i rounds s : ℕ)
    → ((j : ℕ) → g j ≡ (if j == s then true else f j))
    → f s ≡ false
    → i ≤ s
    → s < i + rounds
    → count_clear f i rounds ≡ count_clear g i rounds + 1
unfolding count_clear
count_clear-set f g i zero s h clr lo hi = absurd (omega arith)
count_clear-set f g i (suc rounds) s h clr lo hi = elim (Bool-cases (s == i)) [
  | inl e ↦ ground (arith, h i, count_clear-above f g (i + 1) rounds s true h (ground arith))
  | inr e ↦
      ground (arith, h i, count_clear-set f g (i + 1) rounds s h clr (ground arith) (omega arith))
]

-- To clear a set bit adds one.
pub count_clear-reset :
    (f g : ℕ → Bool) (i rounds s : ℕ)
    → ((j : ℕ) → g j ≡ (if j == s then false else f j))
    → f s ≡ true
    → i ≤ s
    → s < i + rounds
    → count_clear g i rounds ≡ count_clear f i rounds + 1
unfolding count_clear
count_clear-reset f g i zero s h clr lo hi = absurd (omega arith)
count_clear-reset f g i (suc rounds) s h clr lo hi = elim (Bool-cases (s == i)) [
  | inl e ↦ ground (arith, h i, count_clear-above f g (i + 1) rounds s false h (ground arith))
  | inr e ↦
      ground (arith, h i, count_clear-reset f g (i + 1) rounds s h clr (ground arith) (omega arith))
]

-- The same, for a map whose bit s was set.
pub clear_bits-Sets :
    {b b' : BitMap} (s : ℕ)
    → s < b.num_bits
    → marked b s ≡ false
    → Sets b s true b'
    → clear_bits b ≡ clear_bits b' + 1
clear_bits-Sets {b} {b'} s h clr st =
    rw (st.same_size) (
      count_clear-set (marked b) (marked b') 0 b.num_bits s st.bits clr (omega arith) (omega arith))

pub all_set_count :
    (f : ℕ → Bool) (i rounds : ℕ)
    → ((j : ℕ) → i ≤ j → j < i + rounds → f j ≡ true)
    → count_clear f i rounds ≡ 0
unfolding count_clear
all_set_count f i zero h = refl
all_set_count f i (suc rounds) h =
    rw (h i (omega arith) (omega arith))
      (omega (arith, all_set_count f (i + 1) rounds (λ j hi hj. h j (omega arith) (omega arith))))

-- While one of the first k bits is clear, the search finds one of these.
pub find_free_slot-below :
    (k : ℕ) (b : BitMap)
    → IsValid b
    → 0 < count_clear (marked b) 0 k
    → k ≤ b.num_bits
    → (s : ℕ) × (b' : BitMap) × (find_free_slot b ≡ ok (some s, b'))
      × (s < k)
      × (marked b s ≡ false)
      × Sets b s true b'
find_free_slot-below k b v h le = go (find_free_slot-FreeSlot b v).1 (find_free_slot-FreeSlot b v).2
  where
    go :
        {r : Option ℕ × BitMap}
        → find_free_slot b ≡ ok r
        → FreeSlot b 0 r
        → (s : ℕ) × (b' : BitMap) × (find_free_slot b ≡ ok (some s, b'))
          × (s < k)
          × (marked b s ≡ false)
          × Sets b s true b'
    go e (full all) =
        absurd (omega (arith, all_set_count (marked b) 0 k (λ j hi hj. all j hi (omega arith))))
    go e (slot {s} {b'} lo hi clr all st) = elim (Bool-cases (ltb s k)) [
      | inl low ↦ (s, b', e, ground (arith, low), clr, st)
      | inr high ↦
          let ge : k ≤ s = ground (arith, high) in
          absurd (omega (arith, all_set_count (marked b) 0 k (λ j hi hj. all j hi (omega arith))))
    ]

-- The first k bits hold at most all the clear bits.
pub count_clear-le : (f : ℕ → Bool) (i k n : ℕ) → k ≤ n → count_clear f i k ≤ count_clear f i n
unfolding count_clear
count_clear-le f i zero n le = omega arith
count_clear-le f i (suc k) zero le = absurd (omega arith)
count_clear-le f i (suc k) (suc n) le = omega (arith, count_clear-le f (i + 1) k n (omega arith))

-- While a bit is clear, the search finds one.
pub find_free_slot-some :
    (b : BitMap)
    → IsValid b
    → 0 < clear_bits b
    → (s : ℕ) × (b' : BitMap) × (find_free_slot b ≡ ok (some s, b'))
      × (s < b.num_bits)
      × (marked b s ≡ false)
      × Sets b s true b'
find_free_slot-some b v h = find_free_slot-below b.num_bits b v h (omega arith)
