-- ===== src/Threads/Signal.antt =====
-- The invariant through Semaphore::V of threads/synch.cc.
use os_project2_nach_os.Base.{
  ℕ, ◌+◌, ◌%◌, ◌^◌, ◌≡◌, ◌≢◌, ◌≤◌, refl, sym, ap, ◌∙◌, subst, List, [], ◌∷◌, ◌++◌, Option, some, ok,
  ◌==◌, Bool-cases, inl, inr, arith,
}
use os_project2_nach_os.Threads.{
  ready, Point, at_root, outside, finished, testing, Thread, Semaphore, Kernel, put, ready_to_run,
  v,
}
use os_project2_nach_os.Threads.Queues.{NotIn, Distinct, Each, put-each, Each-NotIn, total}
use os_project2_nach_os.Threads.State.{
  IsLive, CanRun, IsWaiting, Settled, tests, waiter, at_cpu, awake, Covers, IsCovered, IsGood,
}
use os_project2_nach_os.Threads.Run.{ready-IsWaiting, finished-IsWaiting, same_point, not_queued}
use os_project2_nach_os.Threads.Moves.{Settled-semaphore, Covers-up}
use os_project2_nach_os.Threads.Waking.{
  IsOff, IsAtCpu-put, at_cpu-put, off-IsRunning, made_ready-Settled, made_ready-total,
}

waits_once : (s r : ℕ) (e : Option Thread) → IsWaiting s e → r ≢ s → ¬ IsWaiting r e
waits_once s r e (x, at, a, here) ne (y, at', b, there) =
    let q : testing s ≡ testing r = sym here ∙ same_point at at' ∙ there in
    ne (sym (ap (tests_at) q))
  where
    tests_at : Point → ℕ
    tests_at at_root = 0
    tests_at outside = 0
    tests_at finished = 0
    tests_at (testing u) = u

tests_self : (s : ℕ) → tests s (testing s) ≡ 1
tests_self s = elim (Bool-cases (s == s)) [
  | inl e ↦ rw (e)
  | inr e ↦ absurd (let z : ⊥ = ground (arith, e) in z)
]

v_wakes :
    (k : Kernel) (s t : ℕ) (ts : List ℕ) (x : Thread)
    → (k.semaphores s).queue ≡ t ∷ ts
    → k.threads t ≡ some x
    → v k s
      ≡ ok (record k {
        threads = put k.threads t (some (record x { status = ready }));
        ready_list = k.ready_list ++ (t ∷ []);
        semaphores =
            put k.semaphores s
              (record { value = ((k.semaphores s).value + 1) % 2 ^ 32; queue = ts });
      })
unfolding v ready_to_run
v_wakes k s t ts x queued at = rw (queued, at)

v_counts :
    (k : Kernel) (s : ℕ)
    → (k.semaphores s).queue ≡ []
    → v k s
      ≡ ok (record k {
        semaphores =
            put k.semaphores s
              (record { value = ((k.semaphores s).value + 1) % 2 ^ 32; queue = [] });
      })
unfolding v
v_counts k s queued = rw (queued)

-- The first waiter t becomes READY.
v_wakes-IsGood :
    (k : Kernel) (s t : ℕ) (ts : List ℕ)
    → IsGood k
    → (k.semaphores s).queue ≡ t ∷ ts
    → (k' : Kernel) × (v k s ≡ ok k') × IsGood k'
v_wakes-IsGood k s t ts h queued =
    let each = subst (Each (IsWaiting s) k.threads) queued (h.0.0.waiting_ok s) in
    let once : Distinct (t ∷ ts) = subst Distinct queued (h.0.0.waiting_once s) in
    let (x, at, is_blocked, where_to) = each.0 in
    let waits : IsWaiting s (k.threads t) = (x, at, is_blocked, where_to) in
    let y : Thread = record x { status = ready } in
    let f = put k.threads t (some y) in
    let left : Semaphore = record { value = ((k.semaphores s).value + 1) % 2 ^ 32; queue = ts } in
    let never_runs = off-IsRunning (k.threads t) x at (subst IsOff (sym is_blocked) tt) in
    let out : NotIn t k.ready_list =
      Each-NotIn k.threads CanRun t k.ready_list (λ can. ready-IsWaiting s (k.threads t) can waits)
        h.0.0.ready_ok in
    let dequeued : Settled k.threads k.ready_list (put k.semaphores s left)
        k.thread_to_be_destroyed =
      Settled-semaphore s left h.0.0 each.1 once.1 in
    let now : (r : ℕ)
        → total (waiter r) f (k.ready_list ++ (t ∷ [])) + at_cpu r f k.cpu
          ≡ awake k r + tests r (testing s) =
      λ r.
        let a = at_cpu-put k.threads k.cpu t (some y) r never_runs h.0.1 in
        let b = made_ready-total k.threads k.ready_list t y (waiter r) out in
        let c = ap (tests r) where_to in omega (arith, a, b, c) in
    (
      _,
      v_wakes k s t ts x queued at,
      (
        (
          made_ready-Settled t y dequeued out
              (put-each (λ r z. NotIn t z.queue) k.semaphores s left once.0
                (λ r ne. not_queued t r h.0.0 (waits_once s r (k.threads t) waits ne)))
              (λ ended. finished-IsWaiting s (k.threads t) ended waits) refl
              (subst IsLive (sym where_to) tt),
          IsAtCpu-put k.threads k.cpu t (some y) never_runs h.0.1,
        ),
        put-each
            (λ r z. IsCovered z (total (waiter r) f (k.ready_list ++ (t ∷ [])) + at_cpu r f k.cpu))
            k.semaphores s left
            (let covered : (k.semaphores s).value ≤ awake k s =
                subst (Covers (awake k s) (k.semaphores s).value) queued (h.1 s) in
              Covers-more _ (k.semaphores s).value ts
                (let a = now s in let b = tests_self s in omega (arith, a, b, covered)))
            (λ r ne.
              Covers-up (awake k r) _ (k.semaphores r).value (k.semaphores r).queue
                (let a = now r in omega (arith, a)) (h.1 r)),
      ),
    )
  where
    Covers-more : (n u : ℕ) (q : List ℕ) → u + 1 ≤ n → Covers n ((u + 1) % 2 ^ 32) q
    Covers-more n u [] le = tt
    Covers-more n u (z ∷ zs) le = omega (arith, le)

v_counts-IsGood :
    (k : Kernel) (s : ℕ)
    → IsGood k
    → (k.semaphores s).queue ≡ []
    → (k' : Kernel) × (v k s ≡ ok k') × IsGood k'
v_counts-IsGood k s h queued =
    let left : Semaphore = record { value = ((k.semaphores s).value + 1) % 2 ^ 32; queue = [] } in
    (
      _,
      v_counts k s queued,
      (
        (Settled-semaphore s left h.0.0 tt tt, h.0.1),
        put-each (λ r z. IsCovered z (awake k r)) k.semaphores s left tt (λ r ne. h.1 r),
      ),
    )

pub v-IsGood : (k : Kernel) (s : ℕ) → IsGood k → (k' : Kernel) × (v k s ≡ ok k') × IsGood k'
v-IsGood k s h = next (k.semaphores s).queue refl
  where
    next : (q : List ℕ) → (k.semaphores s).queue ≡ q → (k' : Kernel) × (v k s ≡ ok k') × IsGood k'
    next [] queued = v_counts-IsGood k s h queued
    next (t ∷ ts) queued = v_wakes-IsGood k s t ts h queued
