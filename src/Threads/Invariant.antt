-- ===== src/Threads/Invariant.antt =====
-- The invariant through every operation on threads and semaphores, and through runs of them.
use os_project2_nach_os.Base.{ℕ, ◌≡◌, refl, ap, ◌∙◌, subst, Result, ok, err, sym, arith}
use os_project2_nach_os.Threads.{
  idles, Kernel, Event, creates, forks, calls_p, calls_v, yields, finishes, idles_on, operate,
  dispatch,
}
use os_project2_nach_os.Threads.Queues.{total}
use os_project2_nach_os.Threads.State.{waiter, at_cpu, IsGood, IsEnabled}
use os_project2_nach_os.Threads.Moves.{Covers-up, dispatch-IsGood}
use os_project2_nach_os.Threads.Blocking.{p-IsGood, finish-IsGood}
use os_project2_nach_os.Threads.Waking.{new_thread-IsGood, fork-IsGood}
use os_project2_nach_os.Threads.Signal.{v-IsGood}
use os_project2_nach_os.Threads.Yielding.{yield-IsGood}

idles_on-IsGood :
    (k : Kernel) (t : ℕ)
    → IsGood k
    → k.cpu ≡ idles t
    → (k' : Kernel) × (dispatch k ≡ ok k') × IsGood k'
idles_on-IsGood k t h idle = dispatch-IsGood k h.0.0 (λ s.
    let e = ap (at_cpu s k.threads) idle in
    Covers-up _ (total (waiter s) k.threads k.ready_list) (k.semaphores s).value
      (k.semaphores s).queue (omega (arith, e)) (h.1 s))

-- In a good state, where each thread is in one place with the status of that place and no wake-up
-- of a semaphore is lost, an operation that is enabled, a new thread, Fork, P, V, Yield, Finish or
-- the loop of Sleep, succeeds, so that it follows no wild pointer and its ASSERT holds, and the
-- state after it is good.
pub operate-IsGood :
    (k : Kernel) (e : Event)
    → IsGood k
    → IsEnabled k e
    → (k' : Kernel) × (operate k e ≡ ok k') × IsGood k'
unfolding operate
operate-IsGood k (creates t) h enabled = (_, refl, new_thread-IsGood k t h enabled)
operate-IsGood k (forks t) h enabled = fork-IsGood k t h enabled
operate-IsGood k (calls_p s) h enabled = p-IsGood k s h enabled
operate-IsGood k (calls_v s) h enabled = v-IsGood k s h
operate-IsGood k yields h enabled = yield-IsGood k h enabled
operate-IsGood k finishes h enabled = finish-IsGood k h enabled
operate-IsGood k idles_on h (t, idle) = idles_on-IsGood k t h idle

-- A run of the kernel.
pub data Reaches (start : Kernel) : Kernel → Type 0 where
  here : Reaches start start
  after :
      {k k' : Kernel} (e : Event)
      → Reaches start k
      → IsEnabled k e
      → operate k e ≡ ok k'
      → Reaches start k'

abbrev the_kernel : Kernel → Result Kernel → Kernel
the_kernel k (ok k') = k'
the_kernel k (err fault) = k

pub same_kernel : {r : Result Kernel} {k k' : Kernel} → r ≡ ok k → r ≡ ok k' → k ≡ k'
same_kernel {k = k} h g = ap (the_kernel k) (sym h ∙ g)

pub reaches-IsGood : (start k : Kernel) → IsGood start → Reaches start k → IsGood k
reaches-IsGood start _ h here = h
reaches-IsGood start _ h (after {k = k} e before enabled done) =
    let (k', done', good) = operate-IsGood k e (reaches-IsGood start k h before) enabled in
    subst IsGood (same_kernel done' done) good
