-- ===== src/SemCalls/Examples.antt =====
-- Semaphores of user programs at concrete inputs.
use os_project2_nach_os.Base.{
  ℕ, ◌+◌, ◌-◌, ◌≡◌, refl, subst, List, [], ◌∷◌, none, some, ok, arith, replicate, get_or,
}
use os_project2_nach_os.Utility.{div_round_up}
use os_project2_nach_os.BitMap
use os_project2_nach_os.BitMap.{test, mark, find_free_slot, clear, clear_each}
use os_project2_nach_os.Threads.{running, outside, booted}
use os_project2_nach_os.Threads.State.{RunsAt}
use os_project2_nach_os.SemTable.{SemTable, init, find_from, new_semaphore, create}
use os_project2_nach_os.SemTable.Search.{IsTable}
use os_project2_nach_os.SemTable.Init.{init-IsTable}
use os_project2_nach_os.UserMemory.{string_at}
use os_project2_nach_os.FileCalls.{minus_one}
use os_project2_nach_os.SemCalls.{SemState, handle_create_semaphore, handle_up, handle_down}
use os_project2_nach_os.SemCalls.Names.{create-up-down, create_long_name}

abbrev no_semaphore : SemTable
no_semaphore = record {
  bm = record { num_bits = 10; num_words = 1; map = 0 ∷ [] };
  sem_tab = replicate 10 none;
}

no_semaphore-init : init (λ i. 0) ≡ ok no_semaphore
unfolding init BitMap.init clear clear_each div_round_up
no_semaphore-init = refl

no_semaphore-IsTable : IsTable no_semaphore
no_semaphore-IsTable =
    let (t, done, h, unknown) = init-IsTable (λ i. 0) in
    let same : t ≡ no_semaphore = cc (done, no_semaphore-init) in subst IsTable same h

-- "ab" is at 0, and a name of forty bytes at 100.
abbrev memory : ℕ → ℕ
memory a = get_or (97 ∷ 98 ∷ replicate 98 0) a (get_or (replicate 40 120) (a - 100) 0)

abbrev at_start : SemState
at_start = record { user = memory; sems = no_semaphore; kernel = booted (λ s. 0); r2 = 0 }

-- The kernel once a semaphore of that name is in slot 0.
abbrev with_name : List ℕ → SemState
with_name name = record at_start {
  sems = record {
    bm = record { num_bits = 10; num_words = 1; map = 1 ∷ [] };
    sem_tab = some (record { name = name; sem = 5 }) ∷ replicate 9 none;
  };
  kernel = new_semaphore at_start.kernel 5 3;
}

creates_ab : handle_create_semaphore 5 0 3 at_start ≡ ok (with_name (97 ∷ 98 ∷ []))
unfolding handle_create_semaphore create find_from test mark find_free_slot string_at
creates_ab = refl

creates_long : handle_create_semaphore 5 100 3 at_start ≡ ok (with_name (replicate 40 120))
unfolding handle_create_semaphore create find_from test mark find_free_slot string_at
creates_long = refl

main_runs : RunsAt (λ q. q ≡ outside) at_start.kernel
main_runs = (0, record { status = running; point = outside }, refl, refl, refl, refl)

create-up-down_example :
    (s₂ : SemState) × (handle_up 0 (with_name (97 ∷ 98 ∷ [])) ≡ ok s₂)
    × (s₂.r2 ≡ 0)
    × (((with_name (97 ∷ 98 ∷ [])).kernel.semaphores 5).value ≡ 3)
    × ((s₂.kernel.semaphores 5).value ≡ 3 + 1)
    × (handle_down 0 s₂ ≡ ok (with_name (97 ∷ 98 ∷ [])))
unfolding string_at
create-up-down_example =
    create-up-down 5 0 3 at_start (with_name (97 ∷ 98 ∷ [])) no_semaphore-IsTable main_runs
      (omega arith) (omega arith) creates_ab refl

create_long_name_example :
    (handle_up 100 (with_name (replicate 40 120))
      ≡ ok (record (with_name (replicate 40 120)) { r2 = minus_one }))
    × (handle_down 100 (with_name (replicate 40 120))
        ≡ ok (record (with_name (replicate 40 120)) { r2 = minus_one }))
unfolding string_at find_from test
create_long_name_example =
    create_long_name 5 100 3 at_start (with_name (replicate 40 120)) no_semaphore-IsTable
      (omega arith) (omega arith) refl creates_long refl
