-- ===== src/Threads/Running.antt =====
-- The entry of the thread that runs, which no queue holds.
use os_project2_nach_os.Base.{ℕ, ◌+◌, ◌≡◌, sym, ap, ◌∙◌, subst, some, arith}
use os_project2_nach_os.Threads.{running, Thread, runs, Kernel, put}
use os_project2_nach_os.Threads.Queues.{NotIn, Each-NotIn, total, total-put}
use os_project2_nach_os.Threads.State.{CanRun, Settled, tests, waiter, at_cpu, awake, IsGood}
use os_project2_nach_os.Threads.Run.{
  IsNowhere, nowhere-CanRun, nowhere-IsWaiting, nowhere-IsFinished, IsDying-put, Settled-put,
  not_queued,
}

-- The new entry of the thread that runs, which is in no queue.
module _ (k : Kernel) (h : IsGood k) (t : ℕ) (x : Thread) (on_cpu : k.cpu ≡ runs t)
    (at : k.threads t ≡ some x) (is_running : x.status ≡ running) where
  abbrev away : IsNowhere x.status
  away = subst IsNowhere (sym is_running) tt

  pub running-NotIn : NotIn t k.ready_list
  running-NotIn =
      Each-NotIn k.threads CanRun t k.ready_list (nowhere-CanRun (k.threads t) x at away)
        h.0.0.ready_ok

  pub running-unqueued : (s : ℕ) → NotIn t (k.semaphores s).queue
  running-unqueued s = not_queued t s h.0.0 (nowhere-IsWaiting s (k.threads t) x at away)

  pub Settled-running :
      (y : Thread)
      → Settled (put k.threads t (some y)) k.ready_list k.semaphores k.thread_to_be_destroyed
  Settled-running y = Settled-put t (some y) h.0.0 running-NotIn running-unqueued (
      IsDying-put k.threads k.thread_to_be_destroyed t (some y)
        (nowhere-IsFinished (k.threads t) x at away) h.0.0.dying_ok)

  pub total-running :
      (s : ℕ) (y : Thread)
      → total (waiter s) (put k.threads t (some y)) k.ready_list
        ≡ total (waiter s) k.threads k.ready_list
  total-running s y = total-put (waiter s) k.threads t (some y) k.ready_list running-NotIn

  pub awake-running :
      (s : ℕ) → awake k s ≡ total (waiter s) k.threads k.ready_list + tests s x.point
  awake-running s =
      let e : at_cpu s k.threads k.cpu ≡ tests s x.point =
        ap (at_cpu s k.threads) on_cpu ∙ ap (waiter s) at in
      omega (arith, e)
