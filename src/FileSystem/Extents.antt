-- ===== src/FileSystem/Extents.antt =====
-- The sectors of each file: its header's and those of its data. No two files share one, and none
-- of them is free.
use os_project2_nach_os.Base.{
  ℕ, zero, suc, ◌+◌, ◌≤◌, ◌≡◌, refl, true, false, List, [], ◌∷◌, some, length, take, arith,
  Bool-cases, inl, inr, ◌==◌,
}
use mathlib.Core.Path.{subst}
use os_project2_nach_os.BitMap.{BitMap}
use os_project2_nach_os.BitMap.Sets.{marked, IsValid}
use os_project2_nach_os.FileHeader.{FileHeader}
use os_project2_nach_os.FileHeader.Slots.{elem, Holds, Owned}
use os_project2_nach_os.Directory.{find}
use os_project2_nach_os.Directory.Lookup.{same_name}
use os_project2_nach_os.Directory.Names.{Distinct}
use os_project2_nach_os.FileSystem.{FileSystem}

abbrev pub data_of : FileHeader → List ℕ
data_of h = take h.num_sectors h.data_sectors

abbrev pub extents : (ℕ → FileHeader) → ℕ → List ℕ
extents headers s = s ∷ data_of (headers s)

-- Free map, directory and headers agree: each file owns its sectors, no two files share one, and
-- none has one of the sectors `system`, which are never free.
pub record IsSound (system : List ℕ) (fs : FileSystem) : Type 0 where
  pub valid : IsValid fs.free_map
  pub distinct : Distinct fs.directory.table
  pub stored :
      (name : List ℕ) (s : ℕ)
      → find fs.directory name ≡ some s
      → (fs.headers s).num_sectors ≤ length (fs.headers s).data_sectors
  pub owned :
      (name : List ℕ) (s : ℕ)
      → find fs.directory name ≡ some s
      → Owned fs.free_map (extents fs.headers s)
  pub disjoint :
      (a b : List ℕ) (s t : ℕ)
      → find fs.directory a ≡ some s
      → find fs.directory b ≡ some t
      → same_name a b ≡ false
      → (x : ℕ) → elem x (extents fs.headers s) ≡ true
      → elem x (extents fs.headers t) ≡ false
  pub reserved : (x : ℕ) → elem x system ≡ true → marked fs.free_map x ≡ true
  pub apart :
      (name : List ℕ) (s : ℕ)
      → find fs.directory name ≡ some s
      → (x : ℕ) → elem x (extents fs.headers s) ≡ true
      → elem x system ≡ false

-- Owned sectors are marked.
pub Owned-marked :
    (m : BitMap) (ss : List ℕ) → Owned m ss → (x : ℕ) → elem x ss ≡ true → marked m x ≡ true
Owned-marked m [] o x e = cc
Owned-marked m (s ∷ ss) o x e = elim (Bool-cases (x == s)) [
  | inl hit ↦ ground (arith, o.1)
  | inr miss ↦ Owned-marked m ss o.3 x (ground arith)
]

-- A list stays owned where its bits stay.
pub Owned-kept :
    (m m' : BitMap) (ss : List ℕ)
    → m'.num_bits ≡ m.num_bits
    → ((x : ℕ) → elem x ss ≡ true → marked m' x ≡ true)
    → Owned m ss
    → Owned m' ss
Owned-kept m m' [] size keep o = tt
Owned-kept m m' (s ∷ ss) size keep o = (
  omega (arith, o.0),
  keep s (ground arith),
  o.2,
  Owned-kept m m' ss size (λ x e. keep x (ground arith)) o.3,
)

Holds-tail : (d : ℕ) (ds : List ℕ) (i : ℕ) (ss : List ℕ) → Holds (d ∷ ds) (suc i) ss → Holds ds i ss
Holds-tail d ds i [] h = tt
Holds-tail d ds i (s ∷ ss) h =
    let next : suc i + 1 ≡ suc (i + 1) = omega arith in
    (h.0, Holds-tail d ds (i + 1) ss (subst (λ k. Holds (d ∷ ds) k ss) next h.1))

Holds-cons : (d : ℕ) (ds : List ℕ) (i : ℕ) (ss : List ℕ) → Holds ds i ss → Holds (d ∷ ds) (suc i) ss
Holds-cons d ds i [] h = tt
Holds-cons d ds i (s ∷ ss) h =
    let next : suc (i + 1) ≡ suc i + 1 = omega arith in
    (h.0, subst (λ k. Holds (d ∷ ds) k ss) next (Holds-cons d ds (i + 1) ss h.1))

-- A list that the array holds from its start is the array's own part.
pub Holds-take : (ds ss : List ℕ) → Holds ds 0 ss → take (length ss) ds ≡ ss
Holds-take ds [] h = refl
Holds-take [] (s ∷ ss) h = absurd (cc h.0)
Holds-take (d ∷ ds) (s ∷ ss) h = cc (h.0, Holds-take ds ss (Holds-tail d ds 0 ss h.1))

pub take-Holds : (ds : List ℕ) (n : ℕ) → n ≤ length ds → Holds ds 0 (take n ds)
take-Holds ds zero h = tt
take-Holds [] (suc n) h = absurd (omega arith)
take-Holds (d ∷ ds) (suc n) h =
    (refl, Holds-cons d ds 0 (take n ds) (take-Holds ds n (omega arith)))
