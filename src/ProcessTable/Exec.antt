-- ===== src/ProcessTable/Exec.antt =====
-- ExecUpdate: the slot of the new process, and that it is a child as JoinUpdate wants it.
use os_project2_nach_os.Base.{
  ℕ, zero, suc, ◌<◌, ◌≡◌, ◌≢◌, refl, ap, ◌∙◌, sym, true, false, List, Option, none, some, ok,
  get_elem?, set, length, get_elem?-set_self, get_elem?-set_ne, lt→ltb, ltb, arith, ◌==◌, ◌⊎◌, inl,
  inr, Bool-cases, Option-cases,
}
use mathlib.Core.Path.{subst₂}
use os_project2_nach_os.BitMap.{BitMap}
use os_project2_nach_os.BitMap.Sets.{marked, IsValid, Sets, mark-Sets}
use os_project2_nach_os.BitMap.Search.{FreeSlot, full, slot, find_free_slot-FreeSlot}
use os_project2_nach_os.SemTable.{strcmp_eq}
use os_project2_nach_os.FileSystem.{FileSystem, open_untyped}
use os_project2_nach_os.OpenFile.{OpenFile}
use os_project2_nach_os.ProcessTable.{
  Pcb, PTable, max_process, start, exec_update, join_update, exit_update, resume_join, resume_exit,
  waits_to_exit,
}
use os_project2_nach_os.ProcessTable.Joins.{join-exit}
use os_project2_nach_os.ProcessTable.Slots.{Slot, IsChild, child_of}

-- The process `me` runs, in a table of the kernel's size whose slot 0 is in use.
pub record IsRunning (t : PTable) (me : ℕ) (q : Pcb) : Type 0 where
  pub valid : IsValid t.bm
  pub bits : t.bm.num_bits ≡ max_process
  pub sized : t.psize ≡ max_process
  pub slots : length t.pcbs ≡ max_process
  pub main : marked t.bm 0 ≡ true
  pub in_use : marked t.bm me ≡ true
  pub here : Slot t me q

-- What ExecUpdate refuses: NULL, the name of the running thread, a name that does not open, and any
-- name while every slot is in use.
abbrev pub Refused : Option (List ℕ) → List ℕ → FileSystem → PTable → Type 0
Refused none own fs t = Unit {0}
Refused (some name) own fs t =
    (strcmp_eq name own ≡ true)
    ⊎ (open_untyped name fs ≡ none)
    ⊎ ((j : ℕ) → j < max_process → marked t.bm j ≡ true)

-- The outcomes of ExecUpdate.
pub data Started (name : Option (List ℕ)) (own : List ℕ) (fs : FileSystem) (me : ℕ) (t : PTable)
    (q : Pcb) : Option ℕ × PTable → Type 0 where
  refused : Refused name own fs t → Started name own fs me t q (none, t)
  started :
      {id : ℕ} {t' : PTable}
      → ¬ (Refused name own fs t)
      → marked t.bm id ≡ false
      → ((j : ℕ) → j < id → marked t.bm j ≡ true)
      → IsChild t' me id 0 0 q
      → ((j : ℕ) → id ≢ j → get_elem? t'.pcbs j ≡ get_elem? t.pcbs j)
      → Sets t.bm id true t'.bm
      → Started name own fs me t q (some id, t')

pos_of_clear : (b : BitMap) (id : ℕ) → marked b 0 ≡ true → marked b id ≡ false → 0 < id
pos_of_clear b zero used clr = cc
pos_of_clear b (suc id) used clr = omega arith

-- The new process, once FindFreeSlot has found its slot.
module _ (t : PTable) (me : ℕ) (q : Pcb) (w : IsRunning t me q) (id : ℕ) (bm : BitMap)
    (low : id < t.bm.num_bits) (clr : marked t.bm id ≡ false) (st : Sets t.bm id true bm) where
  starts :
      (t' : PTable) × (start me t (some id, bm) ≡ ok (some id, t'))
      × IsChild t' me id 0 0 q
      × ((j : ℕ) → id ≢ j → get_elem? t'.pcbs j ≡ get_elem? t.pcbs j)
      × Sets t.bm id true t'.bm
  starts =
      let (bm', e, st') = mark-Sets bm id st.valid (omega (arith, st.same_size)) in
      let room : ltb id (length t.pcbs) ≡ true =
        lt→ltb id (length t.pcbs) (omega (arith, w.bits, w.slots)) in
      let p = child_of me 0 0 in
      let other : id ≢ me = λ e. cc (ap (marked t.bm) e, clr, w.in_use) in
      (
        record t { bm = bm'; pcbs = set t.pcbs id (some p) },
        rw (room, e) refl,
        record {
          valid = st'.valid;
          in_use = ground (arith, st'.bits id);
          in_map = omega (arith, st'.same_size, st.same_size);
          in_size = omega (arith, w.sized, w.bits);
          not_main = pos_of_clear t.bm id w.main clr;
          low = omega (arith, w.bits);
          other = other;
          child = get_elem?-set_self t.pcbs id (some p) (omega (arith, w.bits, w.slots));
          parent_there = get_elem?-set_ne t.pcbs (some p) other ∙ w.here;
        },
        (λ j ne. get_elem?-set_ne t.pcbs (some p) ne),
        record {
          valid = st'.valid;
          same_size = st'.same_size ∙ st.same_size;
          bits = λ j. ground (arith, st'.bits j, st.bits j);
        },
      )

starts_at :
    (name own : List ℕ) (fs : FileSystem) (me : ℕ) (t : PTable) (q : Pcb)
    → IsRunning t me q
    → strcmp_eq name own ≡ false
    → (f : OpenFile) → open_untyped name fs ≡ some f
    → {r : Option ℕ × BitMap} → FreeSlot t.bm 0 r
    → (r' : Option ℕ × PTable) × (start me t r ≡ ok r') × Started (some name) own fs me t q r'
starts_at name own fs me t q w differs f opens (full all) =
    ((none, t), refl, refused (inr (inr (λ j h. all j (omega arith) (omega (arith, w.bits))))))
starts_at name own fs me t q w differs f opens (slot {s = id} {b' = bm} from low clr before st) =
    let (t', e, c, others, s) = starts t me q w id bm low clr st in
    let accepted : ¬ (Refused (some name) own fs t) = λ x. elim x [
      | inl same ↦ cc
      | inr (inl shut) ↦ cc
      | inr (inr all) ↦ cc (all id (omega (arith, w.bits)))
    ] in
    ((some id, t'), e, started accepted clr (λ j k. before j (omega arith) k) c others s)

-- In a sound table ExecUpdate ends without a fault. It answers -1 and changes nothing exactly if the
-- name is NULL, is that of the running thread or does not open, or if every slot is in use. Otherwise
-- it returns the lowest free slot, which then holds a new child of the running process, with no exit
-- code and nobody waiting; that slot is marked, and every other slot is as it was.
pub exec_update-Started :
    (name : Option (List ℕ)) (own : List ℕ) (fs : FileSystem) (me : ℕ) (t : PTable) (q : Pcb)
    → IsRunning t me q
    → (r : Option ℕ × PTable) × (exec_update name own fs me t ≡ ok r) × Started name own fs me t q r
unfolding exec_update
exec_update-Started none own fs me t q w = ((none, t), refl, refused tt)
exec_update-Started (some name) own fs me t q w = elim (Bool-cases (strcmp_eq name own)) [
  | inl same ↦ ((none, t), rw same, refused (inl same))
  | inr differs ↦ elim (Option-cases (open_untyped name fs)) [
    | inl shut ↦ ((none, t), rw (differs, shut), refused (inr (inl shut)))
    | inr (f, opens) ↦
        let (r, e, s) = find_free_slot-FreeSlot t.bm w.valid in
        let (r', e', s') = starts_at name own fs me t q w differs f opens s in
        (r', rw (differs, opens, e) e', s')
  ]
]

-- A process that ExecUpdate has started is a child in a slot that was free.
Started-IsChild :
    {name : Option (List ℕ)} {own : List ℕ} {fs : FileSystem} {me : ℕ} {t : PTable} {q : Pcb}
    → {r : Option ℕ × PTable} → Started name own fs me t q r
    → {id : ℕ} {t' : PTable} → r ≡ (some id, t')
    → IsChild t' me id 0 0 q × (marked t.bm id ≡ false) × Sets t.bm id true t'.bm
Started-IsChild (refused x) e = cc (ap (λ x. x.0) e)
Started-IsChild {me} {t} {q} (started {id = i} {t' = u} ne clr before c others s) {id} {t'} e =
    let same : i ≡ id = cc (ap (λ x. x.0) e) in
    subst₂ (λ i u. IsChild u me i 0 0 q × (marked t.bm i ≡ false) × Sets t.bm i true u.bm) same
      (ap (λ x. x.1) e) (c, clr, s)

-- To set a clear bit and to clear it again.
marks_back :
    {b b' b'' : BitMap} (id : ℕ)
    → marked b id ≡ false
    → Sets b id true b'
    → Sets b' id false b''
    → (j : ℕ) → marked b'' j ≡ marked b j
marks_back {b} id clr s s' j = elim (Bool-cases (j == id)) [
  | inl same ↦
      let here : j ≡ id = ground arith in s'.bits j ∙ rw same (sym (ap (marked b) here ∙ clr))
  | inr other ↦ s'.bits j ∙ rw other (s.bits j ∙ rw other)
]

-- When ExecUpdate has started a child in a sound table, its parent joins it and it then exits with 0:
-- JoinUpdate waits until the child's ExitUpdate has come to its own wait, and that waits until
-- JoinUpdate has gone on. JoinUpdate answers 0, and once ExitUpdate has gone on too, the slots in use
-- are those from before ExecUpdate.
pub exec-join-exit :
    (name : Option (List ℕ)) (own : List ℕ) (fs : FileSystem) (me : ℕ) (t : PTable) (q : Pcb)
    → IsRunning t me q
    → {id : ℕ} {t' : PTable} → exec_update name own fs me t ≡ ok (some id, t')
    → (t₁ : PTable) × (t₂ : PTable) × (t₃ : PTable) × (t₄ : PTable) × (join_update id me t'
        ≡ ok (some t₁))
      × (resume_join id t₁ ≡ ok none)
      × (exit_update 0 id t₁ ≡ ok (waits_to_exit t₂))
      × (resume_exit id t₂ ≡ ok none)
      × (resume_join id t₂ ≡ ok (some (0, t₃)))
      × (resume_exit id t₃ ≡ ok (some t₄))
      × ((j : ℕ) → marked t₄.bm j ≡ marked t.bm j)
exec-join-exit name own fs me t q w {id} {t'} e =
    let (r, e', s) = exec_update-Started name own fs me t q w in
    let (c, clr, set_) = Started-IsChild s {id = id} {t' = t'} (cc) in
    let (t₁, t₂, t₃, t₄, joins, waits, exits, stays, answers, ends, s') =
      join-exit t' me id 0 0 q c in
    (t₁, t₂, t₃, t₄, joins, waits, exits, stays, answers, ends, marks_back id clr set_ s')
