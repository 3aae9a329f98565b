-- ===== src/SemTable/Created.antt =====
-- The ways in which Create of userprog/stable.cc ends.
use os_project2_nach_os.Base.{
  ℕ, ◌<◌, ◌≡◌, refl, sym, ap, ◌∙◌, subst, Bool, true, false, List, Option, none, some, ok,
  get_elem?, set, length, length-set, get_elem?-set_self, get_elem?-set_ne, lt→ltb, ◌==◌,
  Bool-cases, inl, inr, arith, ◌≢◌,
}
use os_project2_nach_os.BitMap.{BitMap, find_free_slot}
use os_project2_nach_os.BitMap.Sets.{marked, Sets}
use os_project2_nach_os.BitMap.Search.{FreeSlot, full, slot, find_free_slot-FreeSlot}
use os_project2_nach_os.Threads.{Kernel}
use os_project2_nach_os.SemTable.{Sem, SemTable, strcmp_eq, find, new_semaphore, create}
use os_project2_nach_os.SemTable.Search.{
  IsTable, strcmp_eq_refl, first_named, find_from-first_named,
}
use os_project2_nach_os.SemTable.Create.{first_named-other, first_named-new}

pub data Created (t : SemTable) (k : Kernel) (name : List ℕ) (initial fresh : ℕ)
    : Bool × SemTable × Kernel → Type 0 where
  known : (s : ℕ) → find t name ≡ ok (some s) → Created t k name initial fresh (false, t, k)
  no_slot :
      find t name ≡ ok none
      → ((j : ℕ) → j < 10 → marked t.bm j ≡ true)
      → Created t k name initial fresh (false, t, k)
  made :
      {t' : SemTable}
      → find t name ≡ ok none
      → IsTable t'
      → find t' name ≡ ok (some fresh)
      → ((other : List ℕ) → strcmp_eq other name ≡ false → find t' other ≡ find t other)
      → Created t k name initial fresh (true, t', new_semaphore k fresh initial)

filled-IsTable :
    (t : SemTable) (id : ℕ) (x : Sem) (bm : BitMap)
    → IsTable t
    → id < 10
    → Sets t.bm id true bm
    → IsTable (record { bm = bm; sem_tab = set t.sem_tab id (some x) })
filled-IsTable t id x bm h lt st = record {
  valid = st.valid;
  ten_bits = st.same_size ∙ h.ten_bits;
  ten_slots = length-set t.sem_tab id (some x) ∙ h.ten_slots;
  filled = λ i low used. elim (Bool-cases (i == id)) [
    | inl e ↦
        let q : id ≡ i = ground (arith, e) in
        (
          x,
          subst (λ j. get_elem? (set t.sem_tab id (some x)) j ≡ some (some x)) q
              (get_elem?-set_self t.sem_tab id (some x) (let n = h.ten_slots in omega (arith, n))),
        )
    | inr e ↦
        let ne : id ≢ i = (λ z. absurd (let w : ⊥ = ground (arith, e, z) in w)) in
        let before : marked t.bm i ≡ true = (let b = st.bits i in ground (arith, b, e, used)) in
        let (s, there) = h.filled i low before in
        (s, get_elem?-set_ne t.sem_tab (some x) ne ∙ there)
  ];
}

-- The slot id is free and the name is unknown.
made-Created :
    (t : SemTable) (k : Kernel) (name : List ℕ) (initial fresh id : ℕ) (bm : BitMap)
    → IsTable t
    → find t name ≡ ok none
    → id < 10
    → marked t.bm id ≡ false
    → Sets t.bm id true bm
    → Created t k name initial fresh (
      true,
      record { bm = bm; sem_tab = set t.sem_tab id (some (record { name = name; sem = fresh })) },
      new_semaphore k fresh initial,
    )
made-Created t k name initial fresh id bm h unknown lt free st =
    let x : Sem = record { name = name; sem = fresh } in
    let t' : SemTable = record { bm = bm; sem_tab = set t.sem_tab id (some x) } in
    let h' = filled-IsTable t id x bm h lt st in
    let in_tab : id < length t.sem_tab = (let n = h.ten_slots in omega (arith, n)) in
    let before = find_from-first_named 10 0 t in
    let now = find_from-first_named 10 0 t' in
    made unknown h'
      (now name h' refl
        ∙ ap ok (
            first_named-new (marked t.bm) (marked bm) t.sem_tab id x st.bits in_tab name 10 0
              (omega arith) (omega arith) (some_inj (sym (before name h refl) ∙ unknown))
              (strcmp_eq_refl name)))
      (λ other differs.
        now other h' refl
        ∙ ap ok (
            first_named-other (marked t.bm) (marked bm) t.sem_tab id x st.bits in_tab other 10 0
              free differs)
        ∙ sym (before other h refl))
  where
    some_inj : {a b : Option ℕ} → ok a ≡ ok b → a ≡ b
    some_inj e = cc

-- Create with a name shorter than fifty bytes, on a table of ten slots with a semaphore in each that
-- is marked, ends without a fault. It returns -1 and changes nothing if the name is known, or if
-- it is unknown and every slot is in use. Otherwise it returns 0, the table is in order again,
-- the name finds the new semaphore, with its initial value and nobody waiting, and every other
-- name finds what it found before.
pub create-Created :
    (t : SemTable) (k : Kernel) (name : List ℕ) (initial fresh : ℕ)
    → IsTable t
    → length name < 50
    → (r : Bool × SemTable × Kernel) × (create t k name initial fresh ≡ ok r)
      × Created t k name initial fresh r
unfolding create
create-Created t k name initial fresh h short =
    next (first_named 10 0 (marked t.bm) t.sem_tab name) (find_from-first_named 10 0 t name h refl)
  where
    Ending : Type 0
    Ending =
        (r : Bool × SemTable × Kernel) × (create t k name initial fresh ≡ ok r)
        × Created t k name initial fresh r

    free_slot :
        find t name ≡ ok none
        → (r : Option ℕ × BitMap) → find_free_slot t.bm ≡ ok r
        → FreeSlot t.bm 0 r
        → Ending
    free_slot unknown _ searched (full all) = (
      (false, t, k),
      rw (unknown, searched),
      no_slot unknown (λ j lt. all j (omega arith) (let n = h.ten_bits in omega (arith, n))),
    )
    free_slot unknown _ searched (slot {s = id} {b' = bm} low lt free lower st) =
        let in_range : id < 10 = (let n = h.ten_bits in omega (arith, n)) in
        (
          _,
          rw (unknown, searched, lt→ltb (length name) 50 short),
          made-Created t k name initial fresh id bm h unknown in_range free st,
        )

    next : (found : Option ℕ) → find t name ≡ ok found → Ending
    next (some s) at = ((false, t, k), rw (at), known s at)
    next none at =
        let (r, searched, ends) = find_free_slot-FreeSlot t.bm h.valid in
        free_slot at r searched ends
