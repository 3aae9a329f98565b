-- ===== src/Threads/Moves.antt =====
-- The invariant through a change of one semaphore or of the ready list, and through the loop of
-- Thread::Sleep.
use os_project2_nach_os.Base.{
  ℕ, ◌+◌, ◌≡◌, ◌≤◌, refl, sym, ap, ◌∙◌, subst, List, [], ◌∷◌, ◌++◌, Option, ok, arith,
}
use os_project2_nach_os.Threads.{
  Point, at_root, outside, finished, testing, Thread, Semaphore, idles, Kernel, put, current_thread,
  resumed, dispatch,
}
use os_project2_nach_os.Threads.Queues.{
  NotIn, Distinct, Each, Distinct-append, Each-append, put-each, total,
}
use os_project2_nach_os.Threads.State.{
  IsWaiting, Settled, IsSettled, tests, waiter, at_cpu, awake, Covers, IsCovered, IsGood,
}
use os_project2_nach_os.Threads.Run.{Ran, run-Ran}

module _ {f : ℕ → Option Thread} {l : List ℕ} {g : ℕ → Semaphore} {d : Option ℕ} where
  -- A semaphore whose new queue is in order.
  pub Settled-semaphore :
      (s : ℕ) (x : Semaphore)
      → Settled f l g d
      → Each (IsWaiting s) f x.queue
      → Distinct x.queue
      → Settled f l (put g s x) d
  Settled-semaphore s x h each once = record {
    ready_ok = h.ready_ok;
    ready_once = h.ready_once;
    waiting_ok = put-each (λ r y. Each (IsWaiting r) f y.queue) g s x each (λ r ne. h.waiting_ok r);
    waiting_once = put-each (λ r y. Distinct y.queue) g s x once (λ r ne. h.waiting_once r);
    dying_ok = h.dying_ok;
  }

  pub Settled-value :
      (s v : ℕ)
      → Settled f l g d
      → Settled f l (put g s (record { value = v; queue = (g s).queue })) d
  Settled-value s v h =
      Settled-semaphore s (record { value = v; queue = (g s).queue }) h (h.waiting_ok s)
        (h.waiting_once s)

  pub Settled-enqueue :
      (s t : ℕ)
      → Settled f l g d
      → IsWaiting s (f t)
      → NotIn t (g s).queue
      → Settled f l (put g s (record { value = (g s).value; queue = (g s).queue ++ (t ∷ []) })) d
  Settled-enqueue s t h waits out =
      Settled-semaphore s (record { value = (g s).value; queue = (g s).queue ++ (t ∷ []) }) h
        (Each-append f (IsWaiting s) (g s).queue t (h.waiting_ok s) waits)
        (Distinct-append (g s).queue t (h.waiting_once s) out)

-- FindNextToRun takes the first thread off.
pub Settled-pop :
    {f : ℕ → Option Thread} {t : ℕ} {ts : List ℕ} {g : ℕ → Semaphore} {d : Option ℕ}
    → Settled f (t ∷ ts) g d
    → Settled f ts g d
Settled-pop h = record {
  ready_ok = h.ready_ok.1;
  ready_once = h.ready_once.1;
  waiting_ok = h.waiting_ok;
  waiting_once = h.waiting_once;
  dying_ok = h.dying_ok;
}

pub Covers-up : (m n v : ℕ) (q : List ℕ) → m ≤ n → Covers m v q → Covers n v q
Covers-up m n v [] h c = tt
Covers-up m n v (t ∷ ts) h c = omega arith

tests-resumed : (s : ℕ) (q : Point) → tests s (resumed q) ≡ tests s q
tests-resumed s at_root = refl
tests-resumed s outside = refl
tests-resumed s finished = refl
tests-resumed s (testing r) = refl

-- The threads that are awake after a switch to n.
pub awake-Ran :
    (k : Kernel) (n : ℕ) (x : Thread) (k' : Kernel) (s : ℕ)
    → Ran k n x k'
    → awake k' s ≡ total (waiter s) k.threads k.ready_list + tests s x.point
awake-Ran k n x k' s r =
    let on_cpu : at_cpu s k'.threads k'.cpu ≡ tests s x.point =
      ap (at_cpu s k'.threads) r.on_cpu ∙ ap (waiter s) r.entry ∙ tests-resumed s x.point in
    let listed : total (waiter s) k'.threads k'.ready_list
        ≡ total (waiter s) k.threads k.ready_list =
      ap (total (waiter s) k'.threads) r.same_list ∙ r.same_total (waiter s) in
    omega (arith, on_cpu, listed)

-- The loop of Sleep, at a point where the sleeping thread is already accounted for.
pub dispatch-IsGood :
    (k : Kernel)
    → IsSettled k
    → ((s : ℕ) → IsCovered (k.semaphores s) (total (waiter s) k.threads k.ready_list))
    → (k' : Kernel) × (dispatch k ≡ ok k') × IsGood k'
unfolding dispatch
dispatch-IsGood k h covered = next k.ready_list refl h covered
  where
    next :
        (l : List ℕ)
        → k.ready_list ≡ l
        → Settled k.threads l k.semaphores k.thread_to_be_destroyed
        → ((s : ℕ) → IsCovered (k.semaphores s) (total (waiter s) k.threads l))
        → (k' : Kernel) × (dispatch k ≡ ok k') × IsGood k'
    next [] at h covered = (
      record k { cpu = idles (current_thread k.cpu) },
      rw (at),
      (
        (subst (λ y. Settled k.threads y k.semaphores k.thread_to_be_destroyed) (sym at) h, tt),
        λ s. Covers-up 0 _ (k.semaphores s).value (k.semaphores s).queue (omega arith) (covered s),
      ),
    )
    next (n ∷ ts) at h covered =
        let can = h.ready_ok.0 in
        let (k', done, r) =
          run-Ran (record k { ready_list = ts }) n (Settled-pop h) can h.ready_once.0 in
        (
          k',
          rw (at) done,
          (
            r.consistent,
            λ s.
                let e = awake-Ran (record k { ready_list = ts }) n can.0 k' s r in
                let (x, entry, is_ready, live) = can in
                let w = ap (waiter s) entry in
                subst (λ y. IsCovered (y s) (awake k' s)) (sym r.same_semaphores)
                  (Covers-up _ (awake k' s) (k.semaphores s).value (k.semaphores s).queue
                    (omega (arith, e, w)) (covered s)),
          ),
        )
