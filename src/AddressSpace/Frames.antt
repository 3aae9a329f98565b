-- ===== src/AddressSpace/Frames.antt =====
-- The frames that the constructor of userprog/addrspace.cc takes from the bitmap of physical pages
-- and that the destructor gives back.
use os_project2_nach_os.Base.{
  ℕ, zero, suc, ◌+◌, ◌≤◌, ◌<◌, ◌≡◌, refl, ap, ◌∙◌, List, [], ◌∷◌, ok, length, arith, Bool-cases,
  inl, inr,
}
use os_project2_nach_os.BitMap.{BitMap}
use os_project2_nach_os.BitMap.Sets.{marked, IsValid, clear-Sets}
use os_project2_nach_os.BitMap.Search.{count_clear, count_clear-set, find_free_slot-below}
use os_project2_nach_os.FileHeader.Slots.{
  elem, Owned, Takes, done, take, Takes-size, Takes-IsValid, Takes-free, Takes-marked, Takes-Owned,
}
use os_project2_nach_os.FileHeader.Deallocate.{Owned-Sets, Releases}
use os_project2_nach_os.Memory.{TranslationEntry}
use os_project2_nach_os.AddressSpace.{new_entry, set_up, release}

-- The page table that maps the pages from i on to these frames.
abbrev pub entries : ℕ → List ℕ → List TranslationEntry
entries i [] = []
entries i (f ∷ fs) = new_entry i f ∷ entries (i + 1) fs

abbrev pub AreBelow : ℕ → List ℕ → Type 0
AreBelow k [] = Unit {0}
AreBelow k (f ∷ fs) = (f < k) × AreBelow k fs

-- With enough clear bits among the first k, the loop takes its frames there.
pub set_up-Takes :
    (rounds i k : ℕ) (m : BitMap)
    → IsValid m
    → k ≤ m.num_bits
    → rounds ≤ count_clear (marked m) 0 k
    → (fs : List ℕ) × (m' : BitMap) × (set_up rounds i m ≡ ok (entries i fs, m'))
      × Takes fs m m'
      × (length fs ≡ rounds)
      × AreBelow k fs
unfolding set_up
set_up-Takes zero i k m v le room = ([], m, refl, done, refl, tt)
set_up-Takes (suc rounds) i k m v le room =
    let (f, m₁, e, hf, clr, st) = find_free_slot-below k m v (omega arith) le in
    let one_less =
      count_clear-set (marked m) (marked m₁) 0 k f st.bits clr (omega arith) (omega arith) in
    let (fs, m', e', t, len, low) =
      set_up-Takes rounds (i + 1) k m₁ st.valid (omega (arith, st.same_size))
        (omega (arith, one_less)) in
    (f ∷ fs, m', rw (e, e'), take (omega arith) clr st t, ap suc len, (hf, low))

release-Releases :
    (fs : List ℕ) (i : ℕ) (m : BitMap)
    → IsValid m
    → Owned m fs
    → (m' : BitMap) × (release (entries i fs) m ≡ ok m') × Releases fs m m'
unfolding release
release-Releases [] i m v own = (m, refl, record { valid = v; same_size = refl; bits = λ j. refl })
release-Releases (f ∷ fs) i m v own =
    let (m₁, e, st) = clear-Sets m f v own.0 in
    let (m', e', r) = release-Releases fs (i + 1) m₁ st.valid (Owned-Sets f fs st own.2 own.3) in
    (
      m',
      rw (e) e',
      record {
        valid = r.valid;
        same_size = r.same_size ∙ st.same_size;
        bits = λ j. ground (arith, r.bits j, st.bits j);
      },
    )

-- The frames that were taken are free again, and nothing else has changed.
pub release-restores :
    (fs : List ℕ) (i : ℕ) (m m' : BitMap)
    → IsValid m
    → Takes fs m m'
    → (m'' : BitMap) × (release (entries i fs) m' ≡ ok m'')
      × IsValid m''
      × (m''.num_bits ≡ m.num_bits)
      × ((j : ℕ) → marked m'' j ≡ marked m j)
release-restores fs i m m' v t =
    let (m'', e, r) = release-Releases fs i m' (Takes-IsValid t v) (Takes-Owned t) in
    (
      m'',
      e,
      r.valid,
      r.same_size ∙ Takes-size t,
      λ j. elim (Bool-cases (elem j fs)) [
        | inl taken ↦ ground (arith, r.bits j, Takes-free t j taken)
        | inr free ↦ ground (arith, r.bits j, Takes-marked t j)
      ],
    )
