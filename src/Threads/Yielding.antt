-- ===== src/Threads/Yielding.antt =====
-- The invariant through Thread::Yield of threads/thread.cc.
use os_project2_nach_os.Base.{
  ℕ, ◌≡◌, refl, sym, ap, ◌∙◌, subst, List, [], ◌∷◌, ◌++◌, some, ok, arith,
}
use os_project2_nach_os.Threads.{
  running, ready, outside, Thread, runs, Kernel, put, ready_to_run, yield,
}
use os_project2_nach_os.Threads.Queues.{NotIn, put_other, NotIn-append, total}
use os_project2_nach_os.Threads.State.{IsLive, Settled, waiter, awake, IsCovered, IsGood, RunsAt}
use os_project2_nach_os.Threads.Run.{IsNowhere, nowhere-IsFinished, Ran, run-Ran}
use os_project2_nach_os.Threads.Moves.{Settled-pop, Covers-up, awake-Ran}
use os_project2_nach_os.Threads.Running.{running-NotIn, running-unqueued, awake-running}
use os_project2_nach_os.Threads.Waking.{made_ready-Settled, made_ready-total}

-- The state in which Yield calls Run.
abbrev pub turned : Kernel → ℕ → Thread → List ℕ → Kernel
turned k t x ts = record k {
  threads = put k.threads t (some (record x { status = ready }));
  ready_list = ts ++ (t ∷ []);
  cpu = runs t;
}

pub yield-Ran :
    (k : Kernel) (t : ℕ) (x : Thread) (n : ℕ) (ts : List ℕ)
    → IsGood k
    → k.cpu ≡ runs t
    → k.threads t ≡ some x
    → x.status ≡ running
    → x.point ≡ outside
    → k.ready_list ≡ n ∷ ts
    → (z : Thread) × (k.threads n ≡ some z)
      × (k' : Kernel) × (yield k ≡ ok k')
      × Ran (turned k t x ts) n z k'
unfolding yield ready_to_run
yield-Ran k t x n ts h on_cpu at is_running own listed =
    let y : Thread = record x { status = ready } in
    let f = put k.threads t (some y) in
    let settled : Settled k.threads (n ∷ ts) k.semaphores k.thread_to_be_destroyed =
      subst (λ l. Settled k.threads l k.semaphores k.thread_to_be_destroyed) listed h.0.0 in
    let out : NotIn t (n ∷ ts) =
      subst (NotIn t) listed (running-NotIn k h t x on_cpu at is_running) in
    let (z, entry, is_ready, live) = settled.ready_ok.0 in
    let same : f n ≡ k.threads n = put_other k.threads t (some y) n out.0 in
    let now =
      made_ready-Settled t y (Settled-pop settled) out.1
        (running-unqueued k h t x on_cpu at is_running)
        (nowhere-IsFinished (k.threads t) x at (subst IsNowhere (sym is_running) tt)) refl
        (subst IsLive (sym own) tt) in
    let (k', done, r) =
      run-Ran (turned k t x ts) n now (z, same ∙ entry, is_ready, live)
        (NotIn-append n ts t settled.ready_once.0 (λ q. out.0 (sym q))) in
    (z, entry, k', rw (listed, on_cpu, at) done, r)

pub yield-IsGood :
    (k : Kernel)
    → IsGood k
    → RunsAt (λ q. q ≡ outside) k
    → (k' : Kernel) × (yield k ≡ ok k') × IsGood k'
unfolding yield
yield-IsGood k h (t, x, on_cpu, at, is_running, own) = next k.ready_list refl
  where
    next : (l : List ℕ) → k.ready_list ≡ l → (k' : Kernel) × (yield k ≡ ok k') × IsGood k'
    next [] listed = (k, rw (listed), h)
    next (n ∷ ts) listed =
        let (z, entry, k', done, r) = yield-Ran k t x n ts h on_cpu at is_running own listed in
        let out : NotIn t (n ∷ ts) =
          subst (NotIn t) listed (running-NotIn k h t x on_cpu at is_running) in
        (
          k',
          done,
          (
            r.consistent,
            λ s.
                let a = awake-Ran (turned k t x ts) n z k' s r in
                let b =
                  made_ready-total k.threads ts t (record x { status = ready }) (waiter s) out.1 in
                let c = awake-running k h t x on_cpu at is_running s in
                let e = ap (waiter s) entry in
                let m = ap (total (waiter s) k.threads) listed in
                subst (λ y. IsCovered (y s) (awake k' s)) (sym r.same_semaphores)
                  (Covers-up (awake k s) (awake k' s) (k.semaphores s).value (k.semaphores s).queue
                    (omega (arith, a, b, c, e, m)) (h.1 s)),
          ),
        )
