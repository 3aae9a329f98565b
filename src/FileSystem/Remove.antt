-- ===== src/FileSystem/Remove.antt =====
-- FileSystem::Remove: the sectors of the file, and only those, are free again.
use os_project2_nach_os.Base.{
  ℕ, ◌≡◌, refl, ◌∙◌, sym, Bool, true, false, List, none, some, ok, length-take, if◌then◌else◌,
  arith, Bool-cases, Option-cases, inl, inr,
}
use os_project2_nach_os.BitMap.{BitMap}
use os_project2_nach_os.BitMap.Sets.{marked, Sets, clear-Sets}
use os_project2_nach_os.FileHeader.Slots.{elem}
use os_project2_nach_os.FileHeader.Deallocate.{Owns, Releases, deallocate-Releases}
use os_project2_nach_os.Directory.{Directory, find, remove as remove_name}
use os_project2_nach_os.Directory.Lookup.{same_name, lookup-same, find-lookup}
use os_project2_nach_os.Directory.Names.{Distinct}
use os_project2_nach_os.Directory.Update.{Removed, missing, removed, remove-Removed}
use os_project2_nach_os.FileSystem.{FileSystem, remove}
use os_project2_nach_os.FileSystem.Extents.{
  IsSound, data_of, extents, Owned-marked, Owned-kept, take-Holds,
}

-- The outcomes of Remove.
pub data Gone (system : List ℕ) (fs : FileSystem) (name : List ℕ) : Bool × FileSystem → Type 0 where
  not_found : find fs.directory name ≡ none → Gone system fs name (false, fs)
  gone :
      {fs' : FileSystem} {sector : ℕ}
      → find fs.directory name ≡ some sector
      → IsSound system fs'
      → find fs'.directory name ≡ none
      → ((other : List ℕ)
          → same_name name other ≡ false
          → find fs'.directory other ≡ find fs.directory other)
      → fs'.headers ≡ fs.headers
      → ((x : ℕ)
          → marked fs'.free_map x
            ≡ (if elem x (extents fs.headers sector) then false else marked fs.free_map x))
      → fs'.file_table ≡ fs.file_table
      → Gone system fs name (true, fs')

module _ {system : List ℕ} {fs : FileSystem} (w : IsSound system fs) (name : List ℕ) {sector : ℕ}
    (f : find fs.directory name ≡ some sector) where
  sound_Owns : Owns (fs.headers sector) fs.free_map
  sound_Owns = record {
    sectors = data_of (fs.headers sector);
    holds = take-Holds _ _ (w.stored name sector f);
    counted =
        length-take (fs.headers sector).num_sectors (fs.headers sector).data_sectors
        ∙ omega (arith, w.stored name sector f);
    owned = (w.owned name sector f).3;
  }

  module _ {m₁ m' : BitMap} (d' : Directory)
      (r : Releases (data_of (fs.headers sector)) fs.free_map m₁) (st : Sets m₁ sector false m')
      (lost : find d' name ≡ none)
      (others : (other : List ℕ)
        → same_name name other ≡ false
        → find d' other ≡ find fs.directory other)
      (dist : Distinct d'.table) where
    freed :
        (x : ℕ)
        → marked m' x ≡ (if elem x (extents fs.headers sector) then false else marked fs.free_map x)
    freed x = ground (arith, r.bits x, st.bits x)

    -- What the directory still finds it found before, and it is another file.
    still :
        (b : List ℕ) (s : ℕ)
        → find d' b ≡ some s
        → (same_name name b ≡ false) × (find fs.directory b ≡ some s)
    still b s g = elim (Bool-cases (same_name name b)) [
      | inl same ↦
          absurd
            (cc (g, lost, find-lookup d' b, find-lookup d' name, lookup-same d'.table name b same))
      | inr other ↦ (other, sym (others b other) ∙ g)
    ]

    shrunk-IsSound : IsSound system (record fs { free_map = m'; directory = d' })
    shrunk-IsSound = record {
      valid = st.valid;
      distinct = dist;
      stored = λ b s g. w.stored b s (still b s g).1;
      owned = λ b s g.
          Owned-kept fs.free_map m' (extents fs.headers s) (st.same_size ∙ r.same_size)
            (λ x h. ground (
              arith,
              freed x,
              w.disjoint name b sector s f (still b s g).1 (still b s g).0 x,
              Owned-marked fs.free_map (extents fs.headers s) (w.owned b s (still b s g).1) x h,
            ))
            (w.owned b s (still b s g).1);
      disjoint = λ b c s t g h. w.disjoint b c s t (still b s g).1 (still c t h).1;
      reserved = λ x h. ground (arith, freed x, w.reserved x h, w.apart name sector f x);
      apart = λ b s g. w.apart b s (still b s g).1;
    }

  -- From here on, what the directory's Remove does.
  dropped :
      {r : Bool × Directory}
      → remove_name fs.directory name ≡ r
      → Removed fs.directory name r
      → (res : Bool × FileSystem) × (remove name fs ≡ ok res) × Gone system fs name res
  unfolding remove sound_Owns
  dropped e (missing h) = cc (h, f)
  dropped e (removed {d'} h lost others dist) =
      let (m₁, e₁, r) = deallocate-Releases (fs.headers sector) fs.free_map w.valid sound_Owns in
      let (m', e', st) =
        clear-Sets m₁ sector r.valid (omega (arith, r.same_size, (w.owned name sector f).0)) in
      (
        (true, record fs { free_map = m'; directory = d' }),
        rw (remove, f, e₁, e', e),
        gone f (shrunk-IsSound d' r st lost others dist) lost others refl
            (freed d' r st lost others dist) refl,
      )

-- In a sound file system `remove` ends without a fault. It refuses a name that the directory does
-- not have. Otherwise the name is no longer found and every other name is found as before, with the
-- same headers; the sectors of the file, its header's included, are free and every other sector is
-- as it was; the table of open files stays; and the file system is sound.
pub remove-Gone :
    {system : List ℕ} {fs : FileSystem}
    → IsSound system fs
    → (name : List ℕ) → (r : Bool × FileSystem) × (remove name fs ≡ ok r) × Gone system fs name r
unfolding remove
remove-Gone {fs = fs} w name = elim (Option-cases (find fs.directory name)) [
  | inl h ↦ ((false, fs), rw (remove, h), not_found h)
  | inr (s, f) ↦ dropped w name f refl (remove-Removed fs.directory name w.distinct)
]
