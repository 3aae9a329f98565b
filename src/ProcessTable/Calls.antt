-- ===== src/ProcessTable/Calls.antt =====
-- nachos/nachos-3.4/code/userprog/exception.cc: the system calls on processes, Exec, Join and Exit by
-- the process `me`. Register 4 is an argument, and what a call leaves in register 2 is returned. A
-- Join that waits goes on as resume_join, which gives its answer, and an Exit as resume_exit.
use os_project2_nach_os.Base.{
  ℕ, ◌<◌, ◌≡◌, ◌≢◌, refl, sym, ap, ◌∙◌, List, Option, none, some, Result, ok, ◌>>=◌, ◌==◌,
  if◌then◌else◌, arith, Option-cases, inl, inr,
}
use os_project2_nach_os.BitMap.Sets.{marked}
use os_project2_nach_os.FileHeader.{slot_int}
use os_project2_nach_os.FileSystem.{FileSystem, open_untyped}
use os_project2_nach_os.UserMemory.{string_at}
use os_project2_nach_os.FileCalls.{minus_one, max_filename_len}
use os_project2_nach_os.ProcessTable.{
  Pcb, PTable, Exiting, waits_to_exit, exec_update, join_update, exit_update, resume_join,
  resume_exit,
}
use os_project2_nach_os.ProcessTable.Exec.{
  IsRunning, Started, refused, started, exec_update-Started, exec-join-exit,
}

-- Exec with the name at register 4, by a thread with the name `own`.
unfoldable pub handle_exec : (ℕ → ℕ) → List ℕ → FileSystem → ℕ → ℕ → PTable → Result (ℕ × PTable)
handle_exec user own fs me r4 t =
    let name = string_at user r4 max_filename_len in
    let updated = exec_update (some name) own fs me t >>= λ (id, u). ok (slot_int id, u) in
    elim (open_untyped name fs) [ none ↦ ok (minus_one, t) | some f ↦ updated ]

pub data Joining : Type 0 where
  answered : ℕ → PTable → Joining
  waits_to_join : PTable → Joining

unfoldable pub handle_join : ℕ → ℕ → PTable → Result Joining
handle_join r4 me t = join_update r4 me t >>= λ joined. elim joined [
  | none ↦ ok (answered minus_one t)
  | some u ↦ ok (waits_to_join u)
]

-- Exit; none is a return to the user program.
unfoldable pub handle_exit : ℕ → ℕ → PTable → Result (Option Exiting)
handle_exit r4 me t =
    let left = exit_update r4 me t >>= λ e. ok (some e) in if r4 == 0 then left else ok none

Started-slot_int :
    (fs : FileSystem) (name own : List ℕ) (me v : ℕ) (t t' : PTable) (q : Pcb)
    → {r : Option ℕ × PTable} → Started (some name) own fs me t q r
    → slot_int r.0 ≡ v
    → r.1 ≡ t'
    → v ≢ minus_one
    → r ≡ (some v, t')
Started-slot_int fs name own me v t t' q (refused x) e e' ne = absurd (ne (sym e))
Started-slot_int fs name own me v t t' q (started ne' clr before c others s) e e' ne = cc

-- A program runs a child with Exec, in a sound table, and the answer is not -1. It joins the child by
-- that answer, and the child then calls Exit with 0: Join waits until the child has come to its own
-- wait in Exit, and that waits until Join has gone on. Join answers 0, and once Exit has gone on too,
-- the slots in use are those from before Exec. Exit with another status returns to the child's
-- program and changes nothing.
pub handle_exec-handle_exit :
    (user : ℕ → ℕ) (own : List ℕ) (fs : FileSystem) (me r4 v : ℕ) (t t' : PTable) (q : Pcb)
    → IsRunning t me q
    → handle_exec user own fs me r4 t ≡ ok (v, t')
    → v ≢ minus_one
    → ((status : ℕ) → 0 < status → handle_exit status v t' ≡ ok none)
      × ((t₁ : PTable) × (t₂ : PTable) × (t₃ : PTable) × (t₄ : PTable) × (handle_join v me t'
            ≡ ok (waits_to_join t₁))
          × (resume_join v t₁ ≡ ok none)
          × (handle_exit 0 v t₁ ≡ ok (some (waits_to_exit t₂)))
          × (resume_exit v t₂ ≡ ok none)
          × (resume_join v t₂ ≡ ok (some (0, t₃)))
          × (resume_exit v t₃ ≡ ok (some t₄))
          × ((j : ℕ) → marked t₄.bm j ≡ marked t.bm j))
unfolding handle_exec handle_join handle_exit
handle_exec-handle_exit user own fs me r4 v t t' q w e ne =
    elim (Option-cases (open_untyped (string_at user r4 max_filename_len) fs)) [
      | inl shut ↦
          let same : ◌≡◌ {A = ℕ × PTable} (minus_one, t) (v, t') =
            cc (rw (handle_exec, shut) at e) in
          absurd (ne (sym (ap (λ x. x.0) same)))
      | inr (f, opens) ↦
          let name = string_at user r4 max_filename_len in
          let (r, e', s) = exec_update-Started (some name) own fs me t q w in
          let same : ◌≡◌ {A = ℕ × PTable} (slot_int r.0, r.1) (v, t') =
            cc (rw (handle_exec, opens, e') at e) in
          let as_v =
            Started-slot_int fs name own me v t t' q s (ap (λ x. x.0) same) (ap (λ x. x.1) same)
              ne in
          let (t₁, t₂, t₃, t₄, joins, waits, exits, stays, answers, ends, marks) =
            exec-join-exit (some name) own fs me t q w (e' ∙ ap ok as_v) in
          (
            (λ status pos. ground arith),
            (t₁, t₂, t₃, t₄, rw joins refl, waits, rw exits refl, stays, answers, ends, marks),
          )
    ]
