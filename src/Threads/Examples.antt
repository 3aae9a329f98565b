-- ===== src/Threads/Examples.antt =====
-- Tests and examples of the threads: main P's a semaphore that thread 1 then V's.
use os_project2_nach_os.Base.{
  ℕ, ◌≡◌, refl, List, [], ◌∷◌, none, some, Result, ok, err, ◌>>=◌, arith,
}
use os_project2_nach_os.Threads.{
  running, ready, blocked, at_root, outside, testing, Thread, Cpu, runs, idles, Kernel, calls_p,
  calls_v, idles_on, booted, put, operate, ready_to_run, run, dispatch, sleep, p, v,
}
use os_project2_nach_os.Threads.Queues.{NotIn}
use os_project2_nach_os.Threads.State.{IsGood, IsEnabled}
use os_project2_nach_os.Threads.Invariant.{here, after, operate-IsGood}
use os_project2_nach_os.Threads.Wakeup.{booted-IsGood, idle_sleepers}
use os_project2_nach_os.Threads.Turns.{HasTurn, yield_times, yield_times-turns}

-- Every semaphore starts at 0.
abbrev start : Kernel
start = booted (λ s. 0)

abbrev main_thread : Thread
main_thread = record { status = running; point = outside }

-- After P of main on the semaphore 5.
abbrev asleep : Kernel
asleep = record start {
  threads =
      put
        (put (put (λ t. none) 0 (some main_thread)) 0
          (some (record { status = running; point = testing 5 })))
        0 (some (record { status = blocked; point = testing 5 }));
  semaphores = put (λ s. record { value = 0; queue = [] }) 5 (record { value = 0; queue = 0 ∷ [] });
  cpu = idles 0;
}

p_of_main : operate start (calls_p 5) ≡ ok asleep
unfolding operate p sleep dispatch
p_of_main = refl

abbrev on_semaphore : Result Kernel → ℕ × List ℕ × List ℕ × Cpu
on_semaphore (ok k) = ((k.semaphores 5).value, (k.semaphores 5).queue, k.ready_list, k.cpu)
on_semaphore (err fault) = (9, [], [], runs 9)

-- A handler's V wakes main, which takes the semaphore when it runs.
v_wakes_main : on_semaphore (operate asleep (calls_v 5)) ≡ (1, [], 0 ∷ [], idles 0)
unfolding operate v ready_to_run
v_wakes_main = refl

main_goes_on :
    on_semaphore
      (operate asleep (calls_v 5) >>= λ k. operate k idles_on >>= λ k'. operate k' (calls_p 5))
    ≡ (0, [], [], runs 0)
unfolding operate v ready_to_run dispatch run p sleep
main_goes_on = refl

main_may : IsEnabled start (calls_p 5)
main_may = (0, main_thread, refl, refl, refl, tt)

operate-IsGood_example : (k' : Kernel) × (operate start (calls_p 5) ≡ ok k') × IsGood k'
operate-IsGood_example = operate-IsGood start (calls_p 5) (booted-IsGood (λ s. 0)) main_may

idle_sleepers_example : (asleep.semaphores 5).value ≡ 0
idle_sleepers_example =
    idle_sleepers (λ s. 0) asleep 0 5 0 [] (after (calls_p 5) here main_may p_of_main) refl refl
      refl

abbrev forked : Thread
forked = record { status = ready; point = at_root }

-- Main runs, and the threads 1 and 2 have been forked.
abbrev three : Kernel
three = record start {
  threads = put (put (put (λ t. none) 0 (some main_thread)) 1 (some forked)) 2 (some forked);
  ready_list = 1 ∷ 2 ∷ [];
}

two_ne_one : NotIn 1 (2 ∷ [])
two_ne_one = ((λ e. omega (arith, e)), tt)

three-HasTurn : HasTurn three 0
three-HasTurn = record {
  good = (
    (
      record {
        ready_ok = ((forked, refl, refl, tt), ((forked, refl, refl, tt), tt));
        ready_once = (two_ne_one, (tt, tt));
        waiting_ok = λ s. tt;
        waiting_once = λ s. tt;
        dying_ok = tt;
      },
      (main_thread, refl, refl, tt),
    ),
    λ s. tt,
  );
  thread = main_thread;
  on_cpu = refl;
  entry = refl;
  is_running = refl;
  own = refl;
  free = refl;
}

yield_times-turns_example :
    (k' : Kernel) × (yield_times 2 three ≡ ok k') × (k'.cpu ≡ runs 2) × (k'.ready_list ≡ 0 ∷ 1 ∷ [])
yield_times-turns_example = yield_times-turns (1 ∷ []) three 0 2 [] three-HasTurn refl
