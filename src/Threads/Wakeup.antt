-- ===== src/Threads/Wakeup.antt =====
-- Runs that begin where Initialize of threads/system.cc ends.
use os_project2_nach_os.Base.{ℕ, ◌≡◌, ◌≤◌, refl, ap, subst, List, [], ◌∷◌, arith}
use os_project2_nach_os.Threads.{running, outside, idles, Kernel, booted}
use os_project2_nach_os.Threads.Queues.{total}
use os_project2_nach_os.Threads.State.{waiter, at_cpu, awake, Covers, IsGood}
use os_project2_nach_os.Threads.Invariant.{Reaches, reaches-IsGood}

pub booted-IsGood : (initial : ℕ → ℕ) → IsGood (booted initial)
booted-IsGood initial = (
  (
    record {
      ready_ok = tt;
      ready_once = tt;
      waiting_ok = λ s. tt;
      waiting_once = λ s. tt;
      dying_ok = tt;
    },
    (record { status = running; point = outside }, refl, refl, tt),
  ),
  λ s. tt,
)

-- In a state that operations reach from the start, whatever the initial values of the semaphores,
-- when the CPU idles with an empty ready list and a thread sleeps on a semaphore, the value of that
-- semaphore is 0.
pub idle_sleepers :
    (initial : ℕ → ℕ) (k : Kernel) (t s w : ℕ) (ws : List ℕ)
    → Reaches (booted initial) k
    → k.cpu ≡ idles t
    → k.ready_list ≡ []
    → (k.semaphores s).queue ≡ w ∷ ws
    → (k.semaphores s).value ≡ 0
idle_sleepers initial k t s w ws reached idle empty queued =
    let good = reaches-IsGood (booted initial) k (booted-IsGood initial) reached in
    let covered : (k.semaphores s).value ≤ awake k s =
      subst (Covers (awake k s) (k.semaphores s).value) queued (good.1 s) in
    let a = ap (total (waiter s) k.threads) empty in
    let b = ap (at_cpu s k.threads) idle in omega (arith, a, b, covered)
