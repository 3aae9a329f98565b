-- ===== src/Threads/Run.antt =====
-- The invariant through ReadyToRun and Run of threads/scheduler.cc.
use os_project2_nach_os.Base.{
  ℕ, ◌≡◌, ◌≢◌, refl, sym, ◌∙◌, subst, false, List, [], ◌∷◌, ◌++◌, Option, none, some, ok, ◌==◌,
  Bool-cases, inl, inr, arith,
}
use os_project2_nach_os.Threads.{
  ThreadStatus, just_created, running, ready, blocked, Point, at_root, outside, finished, testing,
  Thread, Semaphore, runs, Kernel, put, destroy, resumed, after_switch, run,
}
use os_project2_nach_os.Threads.Queues.{
  NotIn, Distinct-append, put_same, put_other, entries-ne, Each-NotIn, Each-put, Each-append, total,
  total-put,
}
use os_project2_nach_os.Threads.State.{
  IsLive, CanRun, IsRunning, IsWaiting, IsFinished, IsDying, Settled, IsSettled, IsAtCpu,
  IsConsistent,
}

-- A thread whose status is neither READY nor BLOCKED is in no queue.
abbrev pub IsNowhere : ThreadStatus → Type 0
IsNowhere just_created = Unit
IsNowhere running = Unit
IsNowhere ready = ⊥
IsNowhere blocked = ⊥

pub same_thread : {x y : Thread} {e : Option Thread} → e ≡ some x → e ≡ some y → x.status ≡ y.status
same_thread h g = let q = sym h ∙ g in cc

pub nowhere-CanRun : (e : Option Thread) (x : Thread) → e ≡ some x → IsNowhere x.status → ¬ CanRun e
nowhere-CanRun e x at away (y, at', is_ready, live) =
    subst IsNowhere (same_thread at at' ∙ is_ready) away

pub nowhere-IsWaiting :
    (s : ℕ) (e : Option Thread) (x : Thread) → e ≡ some x → IsNowhere x.status → ¬ IsWaiting s e
nowhere-IsWaiting s e x at away (y, at', is_blocked, where_to) =
    subst IsNowhere (same_thread at at' ∙ is_blocked) away

pub nowhere-IsFinished :
    (e : Option Thread) (x : Thread) → e ≡ some x → IsNowhere x.status → ¬ IsFinished e
nowhere-IsFinished e x at away (y, at', is_blocked, where_to) =
    subst IsNowhere (same_thread at at' ∙ is_blocked) away

abbrev IsReadyStatus : ThreadStatus → Type 0
IsReadyStatus just_created = ⊥
IsReadyStatus running = ⊥
IsReadyStatus ready = Unit
IsReadyStatus blocked = ⊥

ready-blocked : ready ≢ blocked
ready-blocked h = subst IsReadyStatus h tt

pub ready-IsWaiting : (s : ℕ) (e : Option Thread) → CanRun e → ¬ IsWaiting s e
ready-IsWaiting s e (x, at, is_ready, live) (y, at', is_blocked, where_to) =
    ready-blocked (sym is_ready ∙ same_thread at at' ∙ is_blocked)

pub ready-IsFinished : (e : Option Thread) → CanRun e → ¬ IsFinished e
ready-IsFinished e (x, at, is_ready, live) (y, at', is_blocked, where_to) =
    ready-blocked (sym is_ready ∙ same_thread at at' ∙ is_blocked)

pub IsDying-put :
    (f : ℕ → Option Thread) (d : Option ℕ) (t : ℕ) (e : Option Thread)
    → ¬ IsFinished (f t)
    → IsDying f d
    → IsDying (put f t e) d
IsDying-put f none t e never dying = tt
IsDying-put f (some d) t e never dying =
    subst IsFinished (sym (put_other f t e d (entries-ne f IsFinished dying never))) dying

-- The entry of a thread that no queue holds may change.
pub Settled-put :
    {f : ℕ → Option Thread} {l : List ℕ} {g : ℕ → Semaphore} {d d' : Option ℕ} (t : ℕ)
    (e : Option Thread)
    → Settled f l g d
    → NotIn t l
    → ((s : ℕ) → NotIn t (g s).queue)
    → IsDying (put f t e) d'
    → Settled (put f t e) l g d'
Settled-put {f = f} {l = l} {g = g} t e h out not_waiting dying = record {
  ready_ok = Each-put f CanRun t e l out h.ready_ok;
  ready_once = h.ready_once;
  waiting_ok = λ s. Each-put f (IsWaiting s) t e (g s).queue (not_waiting s) (h.waiting_ok s);
  waiting_once = h.waiting_once;
  dying_ok = dying;
}

-- A thread that waits for no semaphore is in no queue.
pub not_queued :
    {f : ℕ → Option Thread} {l : List ℕ} {g : ℕ → Semaphore} {d : Option ℕ} (t s : ℕ)
    → Settled f l g d
    → ¬ IsWaiting s (f t)
    → NotIn t (g s).queue
not_queued {f = f} {g = g} t s h never =
    Each-NotIn f (IsWaiting s) t (g s).queue never (h.waiting_ok s)

-- A thread that is READY goes to the end of the ready list.
pub Settled-ready :
    {f : ℕ → Option Thread} {l : List ℕ} {g : ℕ → Semaphore} {d : Option ℕ} (t : ℕ)
    → Settled f l g d
    → CanRun (f t)
    → NotIn t l
    → Settled f (l ++ (t ∷ [])) g d
Settled-ready {f = f} {l = l} t h can out = record {
  ready_ok = Each-append f CanRun l t h.ready_ok can;
  ready_once = Distinct-append l t h.ready_once out;
  waiting_ok = h.waiting_ok;
  waiting_once = h.waiting_once;
  dying_ok = h.dying_ok;
}

abbrev IsAnEnd : Point → Type 0
IsAnEnd at_root = ⊥
IsAnEnd outside = ⊥
IsAnEnd finished = Unit
IsAnEnd (testing s) = ⊥

pub same_point : {x y : Thread} {e : Option Thread} → e ≡ some x → e ≡ some y → x.point ≡ y.point
same_point h g = let q = sym h ∙ g in cc

pub finished-IsWaiting : (s : ℕ) (e : Option Thread) → IsFinished e → ¬ IsWaiting s e
finished-IsWaiting s e (x, at, is_blocked, ended) (y, at', is_blocked', where_to) =
    subst IsAnEnd (sym ended ∙ same_point at at' ∙ where_to) tt

finished-IsRunning : (e : Option Thread) → IsFinished e → ¬ IsRunning e
finished-IsRunning e ended (y, at, is_running, live) =
    nowhere-IsFinished e y at (subst IsNowhere (sym is_running) tt) ended

-- What Run has changed when the thread n runs.
pub record Ran (k : Kernel) (n : ℕ) (x : Thread) (k' : Kernel) : Type 0 where
  pub consistent : IsConsistent k'
  pub on_cpu : k'.cpu ≡ runs n
  pub entry : k'.threads n ≡ some (record { status = running; point = resumed x.point })
  pub same_list : k'.ready_list ≡ k.ready_list
  pub same_semaphores : k'.semaphores ≡ k.semaphores
  pub same_total :
      (w : Option Thread → ℕ) → total w k'.threads k.ready_list ≡ total w k.threads k.ready_list

ne_test : {n d : ℕ} → n ≢ d → (d == n) ≡ false
ne_test {n = n} {d = d} other = elim (Bool-cases (d == n)) [
  | inl e ↦ absurd (other (ground (arith, e)))
  | inr e ↦ e
]

-- The thread d is gone.
destroyed-Ran :
    (k : Kernel) (n : ℕ) (x : Thread) (k1 : Kernel) (d : ℕ)
    → Ran k n x k1
    → IsFinished (k1.threads d)
    → n ≢ d
    → Ran k n x (record k1 { threads = put k1.threads d none; thread_to_be_destroyed = none })
destroyed-Ran k n x k1 d r ended other =
    let not_ready : ¬ CanRun (k1.threads d) = λ can. ready-IsFinished (k1.threads d) can ended in
    let out = Each-NotIn k1.threads CanRun d k1.ready_list not_ready r.consistent.0.ready_ok in
    let same : put k1.threads d none n ≡ k1.threads n = put_other k1.threads d none n other in
    record {
      consistent = (
        Settled-put d none r.consistent.0 out
            (λ s. not_queued d s r.consistent.0 (finished-IsWaiting s (k1.threads d) ended)) tt,
        subst (IsAtCpu (put k1.threads d none)) (sym r.on_cpu)
            (subst IsRunning (sym same) (subst (IsAtCpu k1.threads) r.on_cpu r.consistent.1)),
      );
      on_cpu = r.on_cpu;
      entry = same ∙ r.entry;
      same_list = r.same_list;
      same_semaphores = r.same_semaphores;
      same_total = λ w.
          total-put w k1.threads d none k.ready_list (subst (NotIn d) r.same_list out)
          ∙ r.same_total w;
    }

destroy-Ran :
    (k : Kernel) (n : ℕ) (x : Thread) (k1 : Kernel) (dying : Option ℕ)
    → k1.thread_to_be_destroyed ≡ dying
    → Ran k n x k1
    → (k' : Kernel) × (destroy k1 n ≡ ok k') × Ran k n x k'
destroy-Ran k n x k1 none at r = (k1, rw (at), r)
destroy-Ran k n x k1 (some d) at r =
    let ended : IsFinished (k1.threads d) = subst (IsDying k1.threads) at r.consistent.0.dying_ok in
    let runs_now : IsRunning (k1.threads n) = subst (IsAtCpu k1.threads) r.on_cpu r.consistent.1 in
    let other : n ≢ d =
      entries-ne k1.threads IsRunning runs_now (finished-IsRunning (k1.threads d) ended) in
    (_, rw (at, ne_test other), destroyed-Ran k n x k1 d r ended other)

resumed-IsLive : (q : Point) → IsLive q → IsLive (resumed q)
resumed-IsLive at_root live = tt
resumed-IsLive outside live = tt
resumed-IsLive finished live = elim live [ ]
resumed-IsLive (testing s) live = tt

after_switch-Ran :
    (k : Kernel) (n : ℕ) (x : Thread) (k1 : Kernel) (q : Point)
    → Ran k n x k1
    → (k' : Kernel) × (after_switch q k1 n ≡ ok k') × Ran k n x k'
after_switch-Ran k n x k1 at_root r = (k1, refl, r)
after_switch-Ran k n x k1 outside r = destroy-Ran k n x k1 k1.thread_to_be_destroyed refl r
after_switch-Ran k n x k1 finished r = destroy-Ran k n x k1 k1.thread_to_be_destroyed refl r
after_switch-Ran k n x k1 (testing s) r = destroy-Ran k n x k1 k1.thread_to_be_destroyed refl r

-- Run of a READY thread that is off the ready list keeps the invariant, and its ASSERT holds.
pub run-Ran :
    (k : Kernel) (n : ℕ)
    → IsSettled k
    → (can : CanRun (k.threads n)) → NotIn n k.ready_list
    → (k' : Kernel) × (run k n ≡ ok k') × Ran k n can.0 k'
unfolding run
run-Ran k n h (x, at, is_ready, live) out =
    let now : Thread = record { status = running; point = resumed x.point } in
    let f = put k.threads n (some now) in
    let there : f n ≡ some now = put_same k.threads n (some now) in
    let here : CanRun (k.threads n) = (x, at, is_ready, live) in
    let (k', done, r) =
      after_switch-Ran k n x (record k { cpu = runs n; threads = f }) x.point
        (record {
          consistent = (
            Settled-put n (some now) h out
                (λ s. not_queued n s h (ready-IsWaiting s (k.threads n) here))
                (IsDying-put k.threads k.thread_to_be_destroyed n (some now)
                  (ready-IsFinished (k.threads n) here) h.dying_ok),
            (now, there, refl, resumed-IsLive x.point live),
          );
          on_cpu = refl;
          entry = there;
          same_list = refl;
          same_semaphores = refl;
          same_total = λ w. total-put w k.threads n (some now) k.ready_list out;
        }) in
    (k', rw (at) done, r)
