-- ===== src/Threads/Waking.antt =====
-- The invariant through a new thread and Thread::Fork of threads/thread.cc.
use os_project2_nach_os.Base.{
  ℕ, ◌+◌, ◌≡◌, refl, sym, ap, ◌∙◌, subst, List, [], ◌∷◌, ◌++◌, Option, none, some, ok, arith,
}
use os_project2_nach_os.Threads.{
  ThreadStatus, just_created, running, ready, blocked, at_root, Thread, Semaphore, Cpu, runs, idles,
  Kernel, put, new_thread, ready_to_run, fork,
}
use os_project2_nach_os.Threads.Queues.{
  NotIn, put_same, put_other, entries-ne, Each-NotIn, total, total-put, total-append,
}
use os_project2_nach_os.Threads.State.{
  IsLive, CanRun, IsRunning, IsWaiting, IsFinished, IsAtCpu, Settled, waiter, at_cpu, awake, IsGood,
}
use os_project2_nach_os.Threads.Run.{
  nowhere-CanRun, nowhere-IsWaiting, nowhere-IsFinished, IsDying-put, Settled-put, Settled-ready,
  same_thread, not_queued,
}
use os_project2_nach_os.Threads.Moves.{Covers-up}

-- The CPU does not see the entry of a thread that it does not run.
pub IsAtCpu-put :
    (f : ℕ → Option Thread) (c : Cpu) (t : ℕ) (e : Option Thread)
    → ¬ IsRunning (f t)
    → IsAtCpu f c
    → IsAtCpu (put f t e) c
IsAtCpu-put f (runs u) t e never h =
    subst IsRunning (sym (put_other f t e u (entries-ne f IsRunning h never))) h
IsAtCpu-put f (idles u) t e never h = tt

pub at_cpu-put :
    (f : ℕ → Option Thread) (c : Cpu) (t : ℕ) (e : Option Thread) (s : ℕ)
    → ¬ IsRunning (f t)
    → IsAtCpu f c
    → at_cpu s (put f t e) c ≡ at_cpu s f c
at_cpu-put f (runs u) t e s never h =
    ap (waiter s) (put_other f t e u (entries-ne f IsRunning h never))
at_cpu-put f (idles u) t e s never h = refl

abbrev pub IsOff : ThreadStatus → Type 0
IsOff just_created = Unit
IsOff running = ⊥
IsOff ready = Unit
IsOff blocked = Unit

pub off-IsRunning : (e : Option Thread) (x : Thread) → e ≡ some x → IsOff x.status → ¬ IsRunning e
off-IsRunning e x at off (y, at', is_running, live) =
    subst IsOff (same_thread at at' ∙ is_running) off

module _ {f : ℕ → Option Thread} {l : List ℕ} {g : ℕ → Semaphore} {d : Option ℕ} (t : ℕ)
    (y : Thread) where
  pub made_ready-Settled :
      Settled f l g d
      → NotIn t l
      → ((s : ℕ) → NotIn t (g s).queue)
      → ¬ IsFinished (f t)
      → y.status ≡ ready
      → IsLive y.point
      → Settled (put f t (some y)) (l ++ (t ∷ [])) g d
  made_ready-Settled h out unqueued unfinished is_ready live =
      Settled-ready t
        (Settled-put t (some y) h out unqueued (IsDying-put f d t (some y) unfinished h.dying_ok))
        (y, put_same f t (some y), is_ready, live) out

pub made_ready-total :
    (f : ℕ → Option Thread) (l : List ℕ) (t : ℕ) (y : Thread) (w : Option Thread → ℕ)
    → NotIn t l
    → total w (put f t (some y)) (l ++ (t ∷ [])) ≡ total w f l + w (some y)
made_ready-total f l t y w out =
    let a = total-append w (put f t (some y)) l t in
    let b = total-put w f t (some y) l out in
    let c = ap w (put_same f t (some y)) in omega (arith, a, b, c)

pub new_thread-IsGood :
    (k : Kernel) (t : ℕ) → IsGood k → k.threads t ≡ none → IsGood (new_thread k t)
new_thread-IsGood k t h free =
    let y : Thread = record { status = just_created; point = at_root } in
    let never_ready : ¬ CanRun (k.threads t) =
      (λ (x, at, a, b). absurd (let q = sym free ∙ at in cc)) in
    let never_runs : ¬ IsRunning (k.threads t) =
      (λ (x, at, a, b). absurd (let q = sym free ∙ at in cc)) in
    let never_waits : (s : ℕ) → ¬ IsWaiting s (k.threads t) =
      (λ s (x, at, a, b). absurd (let q = sym free ∙ at in cc)) in
    let never_ends : ¬ IsFinished (k.threads t) =
      (λ (x, at, a, b). absurd (let q = sym free ∙ at in cc)) in
    let out = Each-NotIn k.threads CanRun t k.ready_list never_ready h.0.0.ready_ok in
    (
      (
        Settled-put t (some y) h.0.0 out (λ s. not_queued t s h.0.0 (never_waits s))
            (IsDying-put k.threads k.thread_to_be_destroyed t (some y) never_ends h.0.0.dying_ok),
        IsAtCpu-put k.threads k.cpu t (some y) never_runs h.0.1,
      ),
      λ s.
          let a = at_cpu-put k.threads k.cpu t (some y) s never_runs h.0.1 in
          let b = total-put (waiter s) k.threads t (some y) k.ready_list out in
          Covers-up (awake k s) _ (k.semaphores s).value (k.semaphores s).queue
            (omega (arith, a, b)) (h.1 s),
    )

pub fork-IsGood :
    (k : Kernel) (t : ℕ)
    → IsGood k
    → k.threads t ≡ some (record { status = just_created; point = at_root })
    → (k' : Kernel) × (fork k t ≡ ok k') × IsGood k'
unfolding ready_to_run
fork-IsGood k t h at =
    let x : Thread = record { status = just_created; point = at_root } in
    let y : Thread = record { status = ready; point = at_root } in
    let never_runs = off-IsRunning (k.threads t) x at tt in
    let out =
      Each-NotIn k.threads CanRun t k.ready_list (nowhere-CanRun (k.threads t) x at tt)
        h.0.0.ready_ok in
    (
      _,
      rw (at),
      (
        (
          made_ready-Settled t y h.0.0 out
              (λ s. not_queued t s h.0.0 (nowhere-IsWaiting s (k.threads t) x at tt))
              (nowhere-IsFinished (k.threads t) x at tt) refl tt,
          IsAtCpu-put k.threads k.cpu t (some y) never_runs h.0.1,
        ),
        λ s.
            let a = at_cpu-put k.threads k.cpu t (some y) s never_runs h.0.1 in
            let b = made_ready-total k.threads k.ready_list t y (waiter s) out in
            Covers-up (awake k s) _ (k.semaphores s).value (k.semaphores s).queue
              (omega (arith, a, b)) (h.1 s),
      ),
    )
