-- ===== src/FileSystem/Grow.antt =====
-- The file system with a new file: what Create flushes, and that the new file is sound.
use os_project2_nach_os.Base.{
  ℕ, ◌≤◌, ◌<◌, ◌≡◌, ap, ◌∙◌, sym, true, false, ◌||◌, List, ◌∷◌, some, length, ◌==◌, arith,
  Bool-cases, ◌⊎◌, inl, inr,
}
use mathlib.Core.Path.{subst}
use os_project2_nach_os.Base.CString.{strncmp_eq-sym, strncmp_eq_trans}
use os_project2_nach_os.BitMap.{BitMap}
use os_project2_nach_os.BitMap.Sets.{marked, Sets}
use os_project2_nach_os.FileHeader.{FileHeader}
use os_project2_nach_os.FileHeader.Slots.{
  elem, Owned, Takes-size, Takes-IsValid, Takes-free, Takes-marked, Takes-Owned,
}
use os_project2_nach_os.FileHeader.Allocate.{Allocated}
use os_project2_nach_os.Directory.{Directory, find}
use os_project2_nach_os.Directory.Lookup.{same_name, lookup-same, find-lookup}
use os_project2_nach_os.Directory.Names.{Distinct}
use os_project2_nach_os.FileSystem.{FileSystem, write_back}
use os_project2_nach_os.FileSystem.Extents.{IsSound, extents, Owned-marked, Owned-kept, Holds-take}

pub write_back_self :
    (headers : ℕ → FileHeader) (s : ℕ) (hdr : FileHeader) → write_back headers s hdr s ≡ hdr
write_back_self headers s hdr = ground arith

pub write_back_other :
    (headers : ℕ → FileHeader) (s t : ℕ) (hdr : FileHeader)
    → (t == s) ≡ false
    → write_back headers s hdr t ≡ headers t
write_back_other headers s t hdr h = rw h

-- A new header's sectors, and its own sector, were free; nothing else has changed in the map.
module _ {m m₁ m' : BitMap} {sector size : ℕ} {fresh hdr : FileHeader}
    (clr : marked m sector ≡ false) (st : Sets m sector true m₁)
    (a : Allocated fresh m₁ size hdr m') where
  pub new_marked : (x : ℕ) → marked m' x ≡ (elem x (sector ∷ a.sectors) || marked m x)
  new_marked x = ground (arith, Takes-marked a.takes x, st.bits x)

  pub new_free : (x : ℕ) → elem x (sector ∷ a.sectors) ≡ true → marked m x ≡ false
  new_free x e = elim (Bool-cases (x == sector)) [
    | inl hit ↦ ground (arith, clr)
    | inr miss ↦ ground (arith, Takes-free a.takes x (ground arith), st.bits x)
  ]

  pub new_Owned : sector < m.num_bits → Owned m' (sector ∷ a.sectors)
  new_Owned h = (
    omega (arith, Takes-size a.takes, st.same_size, h),
    ground (arith, new_marked sector),
    (elim (Bool-cases (elem sector a.sectors)) [
      | inl e ↦ ground (arith, Takes-free a.takes sector e, st.bits sector)
      | inr e ↦ e
    ]),
    Takes-Owned a.takes,
  )

  pub new_extents :
      (headers : ℕ → FileHeader)
      → extents (write_back headers sector hdr) sector ≡ sector ∷ a.sectors
  new_extents headers =
      rw (write_back_self headers sector hdr, sym a.counted)
        (ap (λ ss. sector ∷ ss) (Holds-take hdr.data_sectors a.sectors a.holds))

-- What changes in the directory.
pub record NewName (d : Directory) (name : List ℕ) (sector : ℕ) (d' : Directory) : Type 0 where
  pub there : find d' name ≡ some sector
  pub others : (other : List ℕ) → same_name name other ≡ false → find d' other ≡ find d other
  pub distinct : Distinct d.table → Distinct d'.table

-- A name in the new directory is the new file's, or was there.
pub found_cases :
    {d d' : Directory} {name : List ℕ} {sector : ℕ}
    → NewName d name sector d'
    → (a : List ℕ) (s : ℕ) → find d' a ≡ some s
    → ((same_name name a ≡ true) × (s ≡ sector))
      ⊎ ((same_name name a ≡ false) × (find d a ≡ some s))
found_cases {d} {d'} {name} n a s f = elim (Bool-cases (same_name name a)) [
  | inl same ↦ inl (
    same,
    cc (f, n.there, find-lookup d' a, find-lookup d' name, lookup-same d'.table name a same),
  )
  | inr other ↦ inr (other, sym (n.others a other) ∙ f)
]

-- The file system once Create has flushed a new file.
abbrev pub grown : FileSystem → ℕ → FileHeader → Directory → BitMap → FileSystem
grown fs sector hdr d m = record fs {
  free_map = m;
  directory = d;
  headers = write_back fs.headers sector hdr;
}

module _ {system : List ℕ} {fs : FileSystem} (w : IsSound system fs) {name : List ℕ}
    {m₁ m' : BitMap} {sector size : ℕ} {fresh hdr : FileHeader} {d' : Directory}
    (low : sector < fs.free_map.num_bits) (clr : marked fs.free_map sector ≡ false)
    (st : Sets fs.free_map sector true m₁) (a : Allocated fresh m₁ size hdr m')
    (n : NewName fs.directory name sector d')
    (fits : hdr.num_sectors ≤ length hdr.data_sectors) where
  -- The sector of an old file is not the new one, so its header is as it was.
  pub old_header :
      (b : List ℕ) (s : ℕ)
      → find fs.directory b ≡ some s
      → write_back fs.headers sector hdr s ≡ fs.headers s
  old_header b s f = write_back_other fs.headers sector s hdr (elim (Bool-cases (s == sector)) [
    | inl e ↦ ground (arith, clr, (w.owned b s f).1)
    | inr e ↦ e
  ])

  old_extents :
      (b : List ℕ) (s : ℕ)
      → find fs.directory b ≡ some s
      → extents (write_back fs.headers sector hdr) s ≡ extents fs.headers s
  old_extents b s f = rw (old_header b s f)

  -- An old file has no sector of the new one.
  old_elsewhere :
      (b : List ℕ) (s x : ℕ)
      → find fs.directory b ≡ some s
      → elem x (extents fs.headers s) ≡ true
      → elem x (sector ∷ a.sectors) ≡ false
  old_elsewhere b s x f e = elim (Bool-cases (elem x (sector ∷ a.sectors))) [
    | inl h ↦
        cc (
          new_free clr st a x h,
          Owned-marked fs.free_map (extents fs.headers s) (w.owned b s f) x e,
        )
    | inr h ↦ h
  ]

  -- The file of a name afterwards: the new one, or one that was there.
  new_or_old :
      (b : List ℕ) (s : ℕ)
      → find d' b ≡ some s
      → ((same_name name b ≡ true)
          × (write_back fs.headers sector hdr s ≡ hdr)
          × (extents (write_back fs.headers sector hdr) s ≡ sector ∷ a.sectors))
        ⊎ ((same_name name b ≡ false)
            × (find fs.directory b ≡ some s)
            × (write_back fs.headers sector hdr s ≡ fs.headers s)
            × (extents (write_back fs.headers sector hdr) s ≡ extents fs.headers s))
  new_or_old b s f = elim (found_cases n b s f) [
    | inl (same, e) ↦ inl (
      same,
      ap (write_back fs.headers sector hdr) e ∙ write_back_self fs.headers sector hdr,
      ap (extents (write_back fs.headers sector hdr)) e ∙ new_extents clr st a fs.headers,
    )
    | inr (other, old) ↦ inr (other, old, old_header b s old, old_extents b s old)
  ]

  grown_stored :
      (b : List ℕ) (s : ℕ)
      → find d' b ≡ some s
      → (write_back fs.headers sector hdr s).num_sectors
        ≤ length (write_back fs.headers sector hdr s).data_sectors
  grown_stored b s f = elim (new_or_old b s f) [
    | inl (same, e, ex) ↦ rw e fits
    | inr (other, old, e, ex) ↦ rw e (w.stored b s old)
  ]

  grown-Owned :
      (b : List ℕ) (s : ℕ)
      → find d' b ≡ some s
      → Owned m' (extents (write_back fs.headers sector hdr) s)
  grown-Owned b s f = elim (new_or_old b s f) [
    | inl (same, e, ex) ↦ subst (Owned m') (sym ex) (new_Owned clr st a low)
    | inr (other, old, e, ex) ↦ subst (Owned m') (sym ex) (
        Owned-kept fs.free_map m' (extents fs.headers s) (Takes-size a.takes ∙ st.same_size)
          (λ x h. ground (
            arith,
            new_marked clr st a x,
            Owned-marked fs.free_map (extents fs.headers s) (w.owned b s old) x h,
          ))
          (w.owned b s old))
  ]

  grown_disjoint :
      (b c : List ℕ) (s t : ℕ)
      → find d' b ≡ some s
      → find d' c ≡ some t
      → same_name b c ≡ false
      → (x : ℕ) → elem x (extents (write_back fs.headers sector hdr) s) ≡ true
      → elem x (extents (write_back fs.headers sector hdr) t) ≡ false
  grown_disjoint b c s t f g ne x h = elim (new_or_old b s f) [
    | inl (same, e, ex) ↦ elim (new_or_old c t g) [
      | inl (same', e', ex') ↦
          cc (ne, strncmp_eq_trans 9 b name c (strncmp_eq-sym 9 name b same) same')
      | inr (other', old', e', ex') ↦ elim (Bool-cases (elem x (extents fs.headers t))) [
        | inl k ↦ cc (h, ex, old_elsewhere c t x old' k)
        | inr k ↦ cc (k, ex')
      ]
    ]
    | inr (other, old, e, ex) ↦ elim (new_or_old c t g) [
      | inl (same', e', ex') ↦ cc (ex', old_elsewhere b s x old (cc (h, ex)))
      | inr (other', old', e', ex') ↦ cc (ex', w.disjoint b c s t old old' ne x (cc (h, ex)))
    ]
  ]

  grown_apart :
      (b : List ℕ) (s : ℕ)
      → find d' b ≡ some s
      → (x : ℕ) → elem x (extents (write_back fs.headers sector hdr) s) ≡ true
      → elem x system ≡ false
  grown_apart b s f x h = elim (new_or_old b s f) [
    | inl (same, e, ex) ↦ elim (Bool-cases (elem x system)) [
      | inl k ↦ cc (w.reserved x k, new_free clr st a x (cc (h, ex)))
      | inr k ↦ k
    ]
    | inr (other, old, e, ex) ↦ w.apart b s old x (cc (h, ex))
  ]

  -- The file system with the new file is sound.
  pub grown-IsSound : IsSound system (grown fs sector hdr d' m')
  grown-IsSound = record {
    valid = Takes-IsValid a.takes st.valid;
    distinct = n.distinct w.distinct;
    stored = grown_stored;
    owned = grown-Owned;
    disjoint = grown_disjoint;
    reserved = λ x h. ground (arith, new_marked clr st a x, w.reserved x h);
    apart = grown_apart;
  }
