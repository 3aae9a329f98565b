-- ===== src/ProcessTable.antt =====
-- nachos/nachos-3.4/code/userprog/ptable.cc and pcb.cc: the processes and how a parent waits for a
-- child. A routine is cut where it waits in P: what it does when the semaphore is up is an operation
-- of its own, and answers none while the semaphore is 0. A semaphore is its value here; it is none
-- once it is deleted. An id or a status of -1 is none, and an int is its 32-bit pattern. bmsem and
-- the mutex, which let one process in, are left out, as is the thread that Exec forks.
pub mod Slots
pub mod Joins
pub mod Exec
pub mod Calls
mod Examples
use os_project2_nach_os.Base.{
  ℕ, zero, suc, ◌+◌, ◌-◌, Bool, true, false, List, [], ◌∷◌, Option, none, some, Result, ok, err,
  wild_access, machine_halted, ◌>>=◌, or_wild, get_elem?, set, length, replicate, ltb, leb, ◌==◌,
  if◌then◌else◌,
}
use mathlib.Core.Option
use os_project2_nach_os.BitMap.{BitMap, init, mark, clear, test, find_free_slot}
use os_project2_nach_os.SemTable.{strcmp_eq}
use os_project2_nach_os.FileSystem.{FileSystem, open_untyped}

abbrev pub max_process : ℕ
max_process = 10

pub record Pcb : Type 0 where
  pub joinsem : Option ℕ
  pub exitsem : Option ℕ
  pub exit_code : ℕ
  pub num_wait : ℕ
  pub parent_id : Option ℕ
  pub join_status : Option ℕ

-- PCB::PCB, by the process `me`.
abbrev pub new_pcb : ℕ → ℕ → Pcb
new_pcb id me = record {
  joinsem = some 0;
  exitsem = some 0;
  exit_code = 0;
  num_wait = 0;
  parent_id = if id == 0 then some 0 else some me;
  join_status = none;
}

-- PCB::~PCB on the process's own thread, up to Finish, which does not return: the object stays.
abbrev pub destroyed : Pcb → Pcb
destroyed p = record p { joinsem = none; exitsem = none }

abbrev pub dec_num_wait : Pcb → Pcb
dec_num_wait p = record p { num_wait = if p.num_wait == 0 then p.num_wait else p.num_wait - 1 }

abbrev pub inc_num_wait : Pcb → Pcb
inc_num_wait p = record p { num_wait = p.num_wait + 1 }

pub record PTable : Type 0 where
  pub bm : BitMap
  pub pcbs : List (Option Pcb)
  pub psize : ℕ

-- PTable::PTable
unfoldable pub create_table : (ℕ → ℕ) → ℕ → Result PTable
create_table garbage size = do
  bm ← init garbage size
  bm' ← mark bm 0
  ok (record {
    bm = bm';
    pcbs = some (record (new_pcb 0 0) { parent_id = none }) ∷ replicate 9 none;
    psize = size;
  })

-- pcb[id]->...
abbrev pub pcb_at : PTable → ℕ → Result Pcb
pcb_at t id = or_wild (get_elem? t.pcbs id) >>= or_wild

-- A store to pcb[id], or to a field of it.
abbrev pub with_pcb : PTable → ℕ → Pcb → Result PTable
with_pcb t id p =
    if ltb id (length t.pcbs)
    then ok (record t { pcbs = set t.pcbs id (some p) })
    else err wild_access

-- The new process, in the slot that FindFreeSlot has marked.
abbrev pub start : ℕ → PTable → Option ℕ × BitMap → Result (Option ℕ × PTable)
start me t (none, bm) = ok (none, record t { bm = bm })
start me t (some id, bm) = do
  t' ← with_pcb (record t { bm = bm }) id (record (new_pcb id me) { parent_id = some me })
  bm' ← mark t'.bm id
  ok (some id, record t' { bm = bm' })

-- ExecUpdate by the process `me`, whose thread has the name `own`.
unfoldable pub exec_update :
    Option (List ℕ) → List ℕ → FileSystem → ℕ → PTable → Result (Option ℕ × PTable)
exec_update none own fs me t = ok (none, t)
exec_update (some name) own fs me t =
    let started = find_free_slot t.bm >>= start me t in
    if strcmp_eq name own
    then ok (none, t)
    else elim (open_untyped name fs) [ none ↦ ok (none, t) | some f ↦ started ]

unfoldable pub is_exist : PTable → ℕ → Result Bool
is_exist t id = if ltb 9 id then ok false else test t.bm id

-- Clear and delete, which does nothing with NULL.
abbrev pub take_out : ℕ → PTable → Result PTable
take_out id t = do
  bm ← clear t.bm id
  entry ← or_wild (get_elem? t.pcbs id)
  ok (record t { bm = bm; pcbs = set t.pcbs id (Option.map destroyed entry) })

unfoldable pub remove_process : ℕ → PTable → Result PTable
remove_process id t =
    let removed = take_out id t in
    if ltb 9 id then ok t else test t.bm id >>= λ used. if used then removed else ok t

-- What a call of ExitUpdate comes to: -1, the end of the process, or a wait in ExitWait.
pub data Exiting : Type 0 where
  no_process : Exiting
  ended waits_to_exit : PTable → Exiting

-- JoinRelease
abbrev pub join_release : ℕ → PTable → Result PTable
join_release id t = do
  p ← pcb_at t id
  value ← or_wild p.joinsem
  with_pcb t id (record (dec_num_wait p) { joinsem = some (value + 1) })

-- ExitUpdate, once the process exists.
unfoldable pub leave : ℕ → ℕ → PTable → Result Exiting
leave ec me t = do
  p ← pcb_at t me
  t' ← with_pcb t me (record p { exit_code = ec })
  parent ← or_wild p.parent_id
  q ← pcb_at t' parent
  t'' ← with_pcb t' parent (dec_num_wait q)
  p' ← pcb_at t'' me
  elim p'.join_status [
    | none ↦ remove_process me t'' >>= λ u. ok (ended u)
    | some s ↦ join_release me t'' >>= λ u. ok (waits_to_exit u)
  ]

unfoldable pub exit_update : ℕ → ℕ → PTable → Result Exiting
exit_update ec me t =
    let left = is_exist t me >>= λ there. if there then leave ec me t else ok no_process in
    if me == 0 then err machine_halted else left

-- ExitUpdate from ExitWait on.
unfoldable pub resume_exit : ℕ → PTable → Result (Option PTable)
resume_exit me t = do
  p ← pcb_at t me
  value ← or_wild p.exitsem
  elim value [
    | zero ↦ ok none
    | suc v ↦
        with_pcb t me (record p { exitsem = some v }) >>= remove_process me >>= λ u. ok (some u)
  ]

-- JoinWait, up to the wait.
abbrev pub join_wait : ℕ → Pcb → PTable → Result PTable
join_wait id p t = or_wild p.joinsem >>= λ value.
    with_pcb t id (record (inc_num_wait p) { join_status = p.parent_id })

abbrev pub same_id : Option ℕ → ℕ → Bool
same_id none me = false
same_id (some id) me = id == me

abbrev pub join_slot : ℕ → ℕ → PTable → Option Pcb → Result (Option PTable)
join_slot id me t none = ok none
join_slot id me t (some p) =
    let joined = join_wait id p t >>= λ u. ok (some u) in
    if same_id p.parent_id me then joined else ok none

-- JoinUpdate by the process `me`: -1 is none, and else it waits.
unfoldable pub join_update : ℕ → ℕ → PTable → Result (Option PTable)
join_update id me t =
    let found = or_wild (get_elem? t.pcbs id) >>= join_slot id me t in
    if leb t.psize id then ok none else found

-- JoinUpdate from the wait on: what it answers, with -1 as 2 ^ 32 - 1.
unfoldable pub resume_join : ℕ → PTable → Result (Option (ℕ × PTable))
resume_join id t = do
  p ← pcb_at t id
  value ← or_wild p.joinsem
  elim value [
    | zero ↦ ok none
    | suc v ↦
        let p' = record p { joinsem = some v } in
        if p.exit_code == 0
        then (or_wild p.exitsem >>= λ w.
            with_pcb t id (record p' { exitsem = some (w + 1) }) >>= λ u. ok (some (0, u)))
        else (with_pcb t id p' >>= λ u. ok (some (4294967295, u)))
  ]
