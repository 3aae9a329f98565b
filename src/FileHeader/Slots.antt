-- ===== src/FileHeader/Slots.antt =====
-- The sectors of a file as a list, and the array that holds them.
use os_project2_nach_os.Base.{
  ℕ, ◌+◌, ◌≤◌, ◌<◌, ◌≡◌, refl, ◌∙◌, Bool, true, false, ◌||◌, List, [], ◌∷◌, some, get_elem?, set,
  length, length-set, get_elem?-set_self, get_elem?-set_ne, ◌==◌, arith, Bool-cases, inl, inr,
}
use os_project2_nach_os.BitMap.{BitMap}
use os_project2_nach_os.BitMap.Sets.{marked, IsValid, Sets}

-- Does s occur in the list?
abbrev pub elem : ℕ → List ℕ → Bool
elem s [] = false
elem s (t ∷ ts) = s == t || elem s ts

-- The array holds the list from index i on.
abbrev pub Holds : List ℕ → ℕ → List ℕ → Type 0
Holds ds i [] = Unit {0}
Holds ds i (s ∷ ss) = (get_elem? ds i ≡ some s) × Holds ds (i + 1) ss

-- The array after the stores of the list from index i on.
abbrev pub splice : List ℕ → ℕ → List ℕ → List ℕ
splice ds i [] = ds
splice ds i (s ∷ ss) = splice (set ds i s) (i + 1) ss

pub length-splice : (ds : List ℕ) (i : ℕ) (ss : List ℕ) → length (splice ds i ss) ≡ length ds
length-splice ds i [] = refl
length-splice ds i (s ∷ ss) = length-splice (set ds i s) (i + 1) ss ∙ length-set ds i s

get_elem?-splice :
    (ds : List ℕ) (i : ℕ) (ss : List ℕ) (j : ℕ)
    → j < i
    → get_elem? (splice ds i ss) j ≡ get_elem? ds j
get_elem?-splice ds i [] j h = refl
get_elem?-splice ds i (s ∷ ss) j h =
    get_elem?-splice (set ds i s) (i + 1) ss j (omega arith)
    ∙ get_elem?-set_ne ds s (λ e. omega arith)

pub splice-Holds :
    (ds : List ℕ) (i : ℕ) (ss : List ℕ) → i + length ss ≤ length ds → Holds (splice ds i ss) i ss
splice-Holds ds i [] h = tt
splice-Holds ds i (s ∷ ss) h = (
  get_elem?-splice (set ds i s) (i + 1) ss i (omega arith)
      ∙ get_elem?-set_self ds i s (omega arith),
  splice-Holds (set ds i s) (i + 1) ss (omega (arith, length-set ds i s)),
)

-- The sectors ss were free in m, one after the other, and are all that m' has beyond m.
pub data Takes : List ℕ → BitMap → BitMap → Type 0 where
  done : {m : BitMap} → Takes [] m m
  take :
      {s : ℕ} {ss : List ℕ} {m m₁ m' : BitMap}
      → s < m.num_bits
      → marked m s ≡ false
      → Sets m s true m₁
      → Takes ss m₁ m'
      → Takes (s ∷ ss) m m'

-- The sectors ss are in the map's range, marked, and distinct.
abbrev pub Owned : BitMap → List ℕ → Type 0
Owned m [] = Unit {0}
Owned m (s ∷ ss) = (s < m.num_bits) × (marked m s ≡ true) × (elem s ss ≡ false) × Owned m ss

pub Takes-size : {ss : List ℕ} {m m' : BitMap} → Takes ss m m' → m'.num_bits ≡ m.num_bits
Takes-size done = refl
Takes-size (take h c st t) = Takes-size t ∙ st.same_size

pub Takes-IsValid : {ss : List ℕ} {m m' : BitMap} → Takes ss m m' → IsValid m → IsValid m'
Takes-IsValid done v = v
Takes-IsValid (take h c st t) v = Takes-IsValid t st.valid

-- A taken sector was free.
pub Takes-free :
    {ss : List ℕ} {m m' : BitMap} → Takes ss m m' → (j : ℕ) → elem j ss ≡ true → marked m j ≡ false
Takes-free done j e = cc
Takes-free (take {s} {ss} h c st t) j e = elim (Bool-cases (j == s)) [
  | inl hit ↦ ground arith
  | inr miss ↦ ground (arith, st.bits j, Takes-free t j (ground arith))
]

-- What is marked after is what was marked before, and the taken sectors.
pub Takes-marked :
    {ss : List ℕ} {m m' : BitMap}
    → Takes ss m m'
    → (j : ℕ) → marked m' j ≡ (elem j ss || marked m j)
Takes-marked done j = refl
Takes-marked (take {s} h c st t) j = ground (arith, st.bits j, Takes-marked t j)

-- Taken sectors are owned in the map that results.
pub Takes-Owned : {ss : List ℕ} {m m' : BitMap} → Takes ss m m' → Owned m' ss
Takes-Owned done = tt
Takes-Owned (take {s} {ss} {m' = m'} h c st t) = (
  omega (arith, Takes-size t, st.same_size),
  ground (arith, Takes-marked t s, st.bits s),
  (elim (Bool-cases (elem s ss)) [
    | inl e ↦ ground (arith, Takes-free t s e, st.bits s)
    | inr e ↦ e
  ]),
  Takes-Owned t,
)
