-- ===== src/FileHeader/Deallocate.antt =====
-- FileHeader::Deallocate, and that it undoes Allocate.
use os_project2_nach_os.Base.{
  ℕ, ◌+◌, ◌≡◌, refl, ◌∙◌, false, List, [], ◌∷◌, ok, length, if◌then◌else◌, arith, Bool-cases, inl,
  inr,
}
use mathlib.Core.Path.{subst}
use os_project2_nach_os.BitMap.{BitMap}
use os_project2_nach_os.BitMap.Sets.{marked, IsValid, Sets, test-marked, clear-Sets}
use os_project2_nach_os.FileHeader.{FileHeader, deallocate_each, deallocate}
use os_project2_nach_os.FileHeader.Slots.{
  elem, Holds, Owned, Takes-size, Takes-IsValid, Takes-free, Takes-marked, Takes-Owned,
}
use os_project2_nach_os.FileHeader.Allocate.{Allocated}

-- To give up a sector that the list does not have leaves the list owned.
pub Owned-Sets :
    {m m' : BitMap} (s : ℕ) (ss : List ℕ)
    → Sets m s false m'
    → elem s ss ≡ false
    → Owned m ss
    → Owned m' ss
Owned-Sets s [] st e o = tt
Owned-Sets {m} {m'} s (t ∷ ts) st e o = (
  omega (arith, st.same_size, o.0),
  ground (arith, st.bits t, o.1),
  o.2,
  Owned-Sets s ts st (ground arith) o.3,
)

-- `m'` is `m` without the sectors ss.
pub record Releases (ss : List ℕ) (m m' : BitMap) : Type 0 where
  pub valid : IsValid m'
  pub same_size : m'.num_bits ≡ m.num_bits
  pub bits : (j : ℕ) → marked m' j ≡ (if elem j ss then false else marked m j)

deallocate_each-Releases :
    (ss : List ℕ) (i : ℕ) (h : FileHeader) (m : BitMap)
    → IsValid m
    → Holds h.data_sectors i ss
    → Owned m ss
    → (m' : BitMap) × (deallocate_each (length ss) i h m ≡ ok m') × Releases ss m m'
unfolding deallocate_each
deallocate_each-Releases [] i h m v held own =
    (m, refl, record { valid = v; same_size = refl; bits = λ j. refl })
deallocate_each-Releases (s ∷ ss) i h m v held own =
    let (m₁, e, st) = clear-Sets m s v own.0 in
    let (m', e', r) =
      deallocate_each-Releases ss (i + 1) h m₁ st.valid held.1 (Owned-Sets s ss st own.2 own.3) in
    (
      m',
      rw (held.0, test-marked m s v own.0, own.1, e) e',
      record {
        valid = r.valid;
        same_size = r.same_size ∙ st.same_size;
        bits = λ j. ground (arith, r.bits j, st.bits j);
      },
    )

-- The header lists sectors that are marked in the map, each once.
pub record Owns (h : FileHeader) (m : BitMap) : Type 0 where
  pub sectors : List ℕ
  pub holds : Holds h.data_sectors 0 sectors
  pub counted : length sectors ≡ h.num_sectors
  pub owned : Owned m sectors

-- Where the header's sectors are all marked, and distinct, no assertion fails: `deallocate` clears
-- exactly those bits.
pub deallocate-Releases :
    (h : FileHeader) (m : BitMap) (v : IsValid m) (o : Owns h m)
    → (m' : BitMap) × (deallocate h m ≡ ok m') × Releases o.sectors m m'
unfolding deallocate
deallocate-Releases h m v o =
    subst (λ n. (m' : BitMap) × (deallocate_each n 0 h m ≡ ok m') × Releases o.sectors m m')
      o.counted (deallocate_each-Releases o.sectors 0 h m v o.holds o.owned)

pub Allocated-Owns :
    {h h' : FileHeader} {m m' : BitMap} {size : ℕ} → Allocated h m size h' m' → Owns h' m'
Allocated-Owns a = record {
  sectors = a.sectors;
  holds = a.holds;
  counted = a.counted;
  owned = Takes-Owned a.takes;
}

-- The sectors that `allocate` took are given back by `deallocate` with the header that it made:
-- the map has again the bits that it had, and is valid.
pub allocate-deallocate :
    (h h' : FileHeader) (m m' : BitMap) (size : ℕ)
    → IsValid m
    → Allocated h m size h' m'
    → (m'' : BitMap) × (deallocate h' m' ≡ ok m'')
      × IsValid m''
      × (m''.num_bits ≡ m.num_bits)
      × ((j : ℕ) → marked m'' j ≡ marked m j)
unfolding Allocated-Owns
allocate-deallocate h h' m m' size v a =
    let (m'', e, r) = deallocate-Releases h' m' (Takes-IsValid a.takes v) (Allocated-Owns a) in
    (
      m'',
      e,
      r.valid,
      r.same_size ∙ Takes-size a.takes,
      λ j. elim (Bool-cases (elem j a.sectors)) [
        | inl taken ↦ ground (arith, r.bits j, Takes-free a.takes j taken)
        | inr free ↦ ground (arith, r.bits j, Takes-marked a.takes j)
      ],
    )
