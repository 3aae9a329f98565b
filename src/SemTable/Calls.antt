-- ===== src/SemTable/Calls.antt =====
-- Wait and Signal of userprog/stable.cc over the threads of the kernel.
use os_project2_nach_os.Base.{
  ℕ, ◌≡◌, refl, sym, subst, Bool, true, false, List, Option, none, some, ok,
}
use os_project2_nach_os.BitMap.Sets.{marked}
use os_project2_nach_os.Threads.{outside, Kernel}
use os_project2_nach_os.Threads.State.{IsGood, MayTest, RunsAt}
use os_project2_nach_os.Threads.Blocking.{p-IsGood}
use os_project2_nach_os.Threads.Signal.{v-IsGood}
use os_project2_nach_os.SemTable.{SemTable, find, wait, signal}
use os_project2_nach_os.SemTable.Search.{IsTable, first_named, find_from-first_named}

-- A call returned whether it knows the name; a known name has a semaphore.
abbrev pub Knows : SemTable → List ℕ → Bool → Type 0
Knows t name true = (s : ℕ) × (find t name ≡ ok (some s))
Knows t name false = find t name ≡ ok none

wait-IsGood :
    (t : SemTable) (k : Kernel) (name : List ℕ) (found : Option ℕ)
    → find t name ≡ ok found
    → IsGood k
    → RunsAt (λ q. q ≡ outside) k
    → (b : Bool) × (k' : Kernel) × (wait t k name ≡ ok (b, k')) × Knows t name b × IsGood k'
unfolding wait
wait-IsGood t k name none at h now = (false, k, rw (at), at, h)
wait-IsGood t k name (some s) at h (u, x, on_cpu, entry, is_running, own) =
    let (k', done, good) =
      p-IsGood k s h (u, x, on_cpu, entry, is_running, subst (MayTest s) (sym own) tt) in
    (true, k', rw (at, done), (s, at), good)

signal-IsGood :
    (t : SemTable) (k : Kernel) (name : List ℕ) (found : Option ℕ)
    → find t name ≡ ok found
    → IsGood k
    → (b : Bool) × (k' : Kernel) × (signal t k name ≡ ok (b, k')) × Knows t name b × IsGood k'
unfolding signal
signal-IsGood t k name none at h = (false, k, rw (at), at, h)
signal-IsGood t k name (some s) at h =
    let (k', done, good) = v-IsGood k s h in (true, k', rw (at, done), (s, at), good)

-- On a table of ten slots with a semaphore in each that is marked, and with a kernel in a good
-- state whose running thread is in its own code, Wait and Signal of any name end without a fault
-- in a good state, Wait up to the switch of the CPU. Each returns 0 exactly when a semaphore has
-- the name.
pub wait-signal-IsGood :
    (t : SemTable) (k : Kernel) (name : List ℕ)
    → IsTable t
    → IsGood k
    → RunsAt (λ q. q ≡ outside) k
    → ((b : Bool) × (k' : Kernel) × (wait t k name ≡ ok (b, k')) × Knows t name b × IsGood k')
      × ((b : Bool) × (k' : Kernel) × (signal t k name ≡ ok (b, k')) × Knows t name b × IsGood k')
wait-signal-IsGood t k name h good now =
    let found = first_named 10 0 (marked t.bm) t.sem_tab name in
    let at : find t name ≡ ok found = find_from-first_named 10 0 t name h refl in
    (wait-IsGood t k name found at good now, signal-IsGood t k name found at good)
