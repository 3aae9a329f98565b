-- ===== src/ProcessTable/Slots.antt =====
-- The slots of the table: a store, a child with its parent, and Remove.
use os_project2_nach_os.Base.{
  ℕ, ◌+◌, ◌<◌, ◌≡◌, ◌≢◌, refl, ◌∙◌, true, false, none, some, ok, get_elem?, set, length,
  get_elem?-bound, get_elem?-set_self, get_elem?-set_ne, lt→ltb, ltb, arith,
}
use os_project2_nach_os.BitMap.{BitMap}
use os_project2_nach_os.BitMap.Sets.{marked, IsValid, Sets, test-marked, clear-Sets}
use os_project2_nach_os.ProcessTable.{
  Pcb, PTable, dec_num_wait, destroyed, with_pcb, remove_process, is_exist,
}

-- pcb[i] is p.
abbrev pub Slot : PTable → ℕ → Pcb → Type 0
Slot t i p = get_elem? t.pcbs i ≡ some (some p)

abbrev pub put_pcb : PTable → ℕ → Pcb → PTable
put_pcb t i p = record t { pcbs = set t.pcbs i (some p) }

pub with_pcb-put_pcb :
    (t : PTable) (i : ℕ) (p p' : Pcb) → Slot t i p → with_pcb t i p' ≡ ok (put_pcb t i p')
with_pcb-put_pcb t i p p' h = rw (lt→ltb i (length t.pcbs) (get_elem?-bound t.pcbs i h)) refl

pub put_self : (t : PTable) (i : ℕ) (p p' : Pcb) → Slot t i p → Slot (put_pcb t i p') i p'
put_self t i p p' h = get_elem?-set_self t.pcbs i (some p') (get_elem?-bound t.pcbs i h)

pub put_other : (t : PTable) (i j : ℕ) (p' q : Pcb) → i ≢ j → Slot t j q → Slot (put_pcb t i p') j q
put_other t i j p' q ne h = get_elem?-set_ne t.pcbs (some p') ne ∙ h

-- A process as Exec leaves it, with a number of waits and an exit code.
abbrev pub child_of : ℕ → ℕ → ℕ → Pcb
child_of parent n code = record {
  joinsem = some 0;
  exitsem = some 0;
  exit_code = code;
  num_wait = n;
  parent_id = some parent;
  join_status = none;
}

-- The child of a parent, both in the table.
pub record IsChild (t : PTable) (parent id n code : ℕ) (q : Pcb) : Type 0 where
  pub valid : IsValid t.bm
  pub in_use : marked t.bm id ≡ true
  pub in_map : id < t.bm.num_bits
  pub in_size : id < t.psize
  pub not_main : 0 < id
  pub low : id < 10
  pub other : id ≢ parent
  pub child : Slot t id (child_of parent n code)
  pub parent_there : Slot t parent q

-- The child's block once the parent waits for it, and once it has released the parent.
abbrev pub joined : ℕ → ℕ → ℕ → Pcb
joined parent n code = record (child_of parent (n + 1) code) { join_status = some parent }

abbrev pub released : ℕ → ℕ → ℕ → Pcb
released parent n ec = record (dec_num_wait (joined parent n ec)) {
  joinsem = some 1;
  exit_code = ec;
}

module _ (t : PTable) (parent id : ℕ) (v : IsValid t.bm) (in_use : marked t.bm id ≡ true)
    (in_map : id < t.bm.num_bits) (low : id < 10) where
  pub exists : is_exist t id ≡ ok true
  unfolding is_exist
  exists =
      let small : ltb 9 id ≡ false = ground arith in
      rw (small, test-marked t.bm id v in_map, in_use) refl

  pub removes :
      (p : Pcb)
      → Slot t id p
      → (bm : BitMap) × (remove_process id t ≡ ok (put_pcb (record t { bm = bm }) id (destroyed p)))
        × Sets t.bm id false bm
  unfolding remove_process
  removes p h =
      let small : ltb 9 id ≡ false = ground arith in
      let (bm, e, s) = clear-Sets t.bm id v in_map in
      (bm, rw (small, test-marked t.bm id v in_map, in_use, e, h) refl, s)
