-- ===== src/FileSystem/Undo.antt =====
-- Remove undoes Create.
use os_project2_nach_os.Base.{
  subst, ℕ, ◌≤◌, ◌≡◌, ap, ◌∙◌, sym, Bool, true, false, ◌||◌, List, none, some, ok, length,
  Bool-cases, inl, inr,
}
use os_project2_nach_os.Utility.{div_round_up}
use os_project2_nach_os.BitMap.Sets.{marked}
use os_project2_nach_os.FileHeader.{FileHeader, sector_size}
use os_project2_nach_os.FileHeader.Slots.{elem}
use os_project2_nach_os.Directory.{Directory, find}
use os_project2_nach_os.Directory.Lookup.{same_name, lookup-same, find-lookup}
use os_project2_nach_os.FileSystem.{FileSystem, create, remove}
use os_project2_nach_os.FileSystem.Extents.{IsSound, extents}
use os_project2_nach_os.FileSystem.Create.{Made, made, create-Made}
use os_project2_nach_os.FileSystem.Remove.{Gone, not_found, gone, remove-Gone}

-- The two file systems have the same free sectors, and find the same names at the same sectors.
pub record Agrees (fs fs' : FileSystem) : Type 0 where
  pub same_free : (x : ℕ) → marked fs'.free_map x ≡ marked fs.free_map x
  pub same_names : (name : List ℕ) → find fs'.directory name ≡ find fs.directory name
  pub same_table : fs'.file_table ≡ fs.file_table

find_same : (d : Directory) (a b : List ℕ) → same_name a b ≡ true → find d a ≡ find d b
find_same d a b h = find-lookup d a ∙ lookup-same d.table a b h ∙ sym (find-lookup d b)

-- The second step, with what the first one gave.
module _ {system : List ℕ} {fs fs' : FileSystem} {name : List ℕ} {sector : ℕ}
    (new : find fs.directory name ≡ none) (there : find fs'.directory name ≡ some sector)
    (free : (x : ℕ) → elem x (extents fs'.headers sector) ≡ true → marked fs.free_map x ≡ false)
    (bits : (x : ℕ)
      → marked fs'.free_map x ≡ (elem x (extents fs'.headers sector) || marked fs.free_map x))
    (others : (other : List ℕ)
      → same_name name other ≡ false
      → find fs'.directory other ≡ find fs.directory other)
    (table : fs'.file_table ≡ fs.file_table) where
  after_remove :
      {r : Bool × FileSystem}
      → remove name fs' ≡ ok r
      → Gone system fs' name r
      → (fs'' : FileSystem) × (remove name fs' ≡ ok (true, fs''))
        × IsSound system fs''
        × Agrees fs fs''
  after_remove e (not_found h) = cc (h, there)
  after_remove e (gone {fs' = fs''} {sector = t} at sound lost others' hs bits' table') = (
    fs'',
    e,
    sound,
    record {
      same_free = λ x.
          let at_new : t ≡ sector = cc (at, there) in
          let same = ap (λ u. elem x (extents fs'.headers u)) at_new in
          elim (Bool-cases (elem x (extents fs'.headers sector))) [
            | inl k ↦ bits' x ∙ rw (same, k) (sym (free x k))
            | inr k ↦ bits' x ∙ rw (same, k) (bits x ∙ rw k)
          ];
      same_names = λ b. elim (Bool-cases (same_name name b)) [
        | inl same ↦
            cc (find_same fs''.directory name b same, find_same fs.directory name b same, lost, new)
        | inr other ↦ others' b other ∙ others b other
      ];
      same_table = table' ∙ table;
    },
  )

undone :
    {system : List ℕ} {fs fs' : FileSystem} {name : List ℕ} {size : ℕ}
    → Made system fs name size (true, fs')
    → (fs'' : FileSystem) × (remove name fs' ≡ ok (true, fs''))
      × IsSound system fs''
      × Agrees fs fs''
undone {system} {fs} {fs'} {name} (made new nf count sound free bits there size others hs table) =
    let (r, e, g) = remove-Gone sound name in after_remove new there free bits others table e g

-- In a sound file system, if `create` succeeds, with room in a header for the sectors of the size,
-- then `remove` of the name succeeds after it: the free sectors are those from before, every name is
-- found as before, the table of open files is the same, and the file system is sound.
pub create-remove :
    {system : List ℕ} {fs fs' : FileSystem}
    → IsSound system fs
    → (name : List ℕ) (size : ℕ) (fresh : FileHeader)
    → div_round_up size sector_size ≤ length fresh.data_sectors
    → create fresh name size fs ≡ ok (true, fs')
    → (fs'' : FileSystem) × (remove name fs' ≡ ok (true, fs''))
      × IsSound system fs''
      × Agrees fs fs''
create-remove {system} {fs} w name size fresh room h =
    let (r, e, c) = create-Made w name size fresh room in
    let same : r ≡ (true, _) = cc (e, h) in undone (subst (Made system fs name size) same c)
