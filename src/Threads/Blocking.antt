-- ===== src/Threads/Blocking.antt =====
-- The invariant through Semaphore::P of threads/synch.cc and Thread::Finish of threads/thread.cc.
use os_project2_nach_os.Base.{
  ℕ, ◌+◌, ◌-◌, ◌≡◌, ◌≢◌, ◌≤◌, refl, sym, ap, ◌∙◌, subst, true, false, List, [], ◌∷◌, ◌++◌, some, ok,
  ◌==◌, Bool-cases, inl, inr, arith,
}
use os_project2_nach_os.Threads.{
  running, blocked, Point, at_root, outside, finished, testing, Thread, runs, Kernel, put, enqueue,
  dispatch, sleep, finish, p,
}
use os_project2_nach_os.Threads.Queues.{put_same, put-put, put-each, total}
use os_project2_nach_os.Threads.State.{
  IsAtCpu, tests, waiter, at_cpu, awake, Covers, IsCovered, IsGood, MayTest, RunsAt,
}
use os_project2_nach_os.Threads.Run.{Settled-put}
use os_project2_nach_os.Threads.Moves.{Settled-value, Settled-enqueue, Covers-up, dispatch-IsGood}
use os_project2_nach_os.Threads.Running.{
  running-NotIn, running-unqueued, Settled-running, total-running, awake-running,
}

tests-other : (s r : ℕ) (q : Point) → MayTest s q → r ≢ s → tests r q ≡ 0
tests-other s r at_root may ne = refl
tests-other s r outside may ne = refl
tests-other s r finished may ne = refl
tests-other s r (testing u) may ne = elim (Bool-cases (u == r)) [
  | inl e ↦ absurd (ne (ground (arith, e, may)))
  | inr e ↦ rw (e)
]

tests-at_most : (s : ℕ) (q : Point) → tests s q ≤ 1
tests-at_most s at_root = omega arith
tests-at_most s outside = omega arith
tests-at_most s finished = omega arith
tests-at_most s (testing r) = elim (Bool-cases (r == s)) [
  | inl e ↦ rw (e) (omega arith)
  | inr e ↦ rw (e) (omega arith)
]

p_sleeps :
    (k : Kernel) (s t : ℕ) (x : Thread)
    → k.cpu ≡ runs t
    → k.threads t ≡ some x
    → ((k.semaphores s).value == 0) ≡ true
    → p k s
      ≡ dispatch (record (enqueue k s t) {
        threads = put k.threads t (some (record { status = blocked; point = testing s }));
      })
unfolding p sleep
p_sleeps k s t x on_cpu at zero_now =
    let y : Thread = record x { point = testing s } in
    rw (
      zero_now,
      on_cpu,
      at,
      put_same k.threads t (some y),
      put-put k.threads t (some y) (some (record { status = blocked; point = testing s })),
    )

p_takes :
    (k : Kernel) (s t : ℕ) (x : Thread)
    → k.cpu ≡ runs t
    → k.threads t ≡ some x
    → ((k.semaphores s).value == 0) ≡ false
    → p k s
      ≡ ok (record k {
        threads = put k.threads t (some (record x { point = outside }));
        semaphores =
            put k.semaphores s
              (record { value = (k.semaphores s).value - 1; queue = (k.semaphores s).queue });
      })
unfolding p
p_takes k s t x on_cpu at positive = rw (positive, on_cpu, at)

Covers-zero : (n v : ℕ) (q : List ℕ) → (v == 0) ≡ true → Covers n v q
Covers-zero n v [] h = tt
Covers-zero n v (t ∷ ts) h = ground (arith, h)

Covers-take : (n m v : ℕ) (q : List ℕ) → n ≤ m + 1 → Covers n v q → Covers m (v - 1) q
Covers-take n m v [] h c = tt
Covers-take n m v (t ∷ ts) h c = omega arith

p_sleeps-IsGood :
    (k : Kernel) (s t : ℕ) (x : Thread)
    → IsGood k
    → k.cpu ≡ runs t
    → k.threads t ≡ some x
    → x.status ≡ running
    → MayTest s x.point
    → ((k.semaphores s).value == 0) ≡ true
    → (k' : Kernel) × (p k s ≡ ok k') × IsGood k'
p_sleeps-IsGood k s t x h on_cpu at is_running may zero_now =
    let y : Thread = record { status = blocked; point = testing s } in
    let same = put_same k.threads t (some y) in
    let settled = Settled-running k h t x on_cpu at is_running y in
    let listed : (r : ℕ)
        → r ≢ s
        → awake k r ≤ total (waiter r) (put k.threads t (some y)) k.ready_list =
      λ r ne.
        let a = awake-running k h t x on_cpu at is_running r in
        let b = tests-other s r x.point may ne in
        let c = total-running k h t x on_cpu at is_running r y in omega (arith, a, b, c) in
    let (k', done, good) =
      dispatch-IsGood (record (enqueue k s t) { threads = put k.threads t (some y) })
        (Settled-enqueue s t settled (y, same, refl, refl)
          (running-unqueued k h t x on_cpu at is_running s))
        (put-each (λ r z. IsCovered z (total (waiter r) (put k.threads t (some y)) k.ready_list))
          k.semaphores s
          (record { value = (k.semaphores s).value; queue = (k.semaphores s).queue ++ (t ∷ []) })
          (Covers-zero _ (k.semaphores s).value ((k.semaphores s).queue ++ (t ∷ [])) zero_now)
          (λ r ne.
            Covers-up (awake k r) _ (k.semaphores r).value (k.semaphores r).queue (listed r ne)
              (h.1 r))) in
    (k', p_sleeps k s t x on_cpu at zero_now ∙ done, good)

p_takes-IsGood :
    (k : Kernel) (s t : ℕ) (x : Thread)
    → IsGood k
    → k.cpu ≡ runs t
    → k.threads t ≡ some x
    → x.status ≡ running
    → MayTest s x.point
    → ((k.semaphores s).value == 0) ≡ false
    → (k' : Kernel) × (p k s ≡ ok k') × IsGood k'
p_takes-IsGood k s t x h on_cpu at is_running may positive =
    let y : Thread = record x { point = outside } in
    let f = put k.threads t (some y) in
    let same = put_same k.threads t (some y) in
    let now : (r : ℕ)
        → awake k r ≤ (total (waiter r) f k.ready_list + at_cpu r f k.cpu) + tests r x.point =
      λ r.
        let a = awake-running k h t x on_cpu at is_running r in
        let c = total-running k h t x on_cpu at is_running r y in omega (arith, a, c) in
    (
      _,
      p_takes k s t x on_cpu at positive,
      (
        (
          Settled-value s ((k.semaphores s).value - 1)
              (Settled-running k h t x on_cpu at is_running y),
          subst (IsAtCpu f) (sym on_cpu) (y, same, is_running, tt),
        ),
        put-each (λ r z. IsCovered z (total (waiter r) f k.ready_list + at_cpu r f k.cpu))
            k.semaphores s
            (record { value = (k.semaphores s).value - 1; queue = (k.semaphores s).queue })
            (Covers-take (awake k s) _ (k.semaphores s).value (k.semaphores s).queue
              (let a = now s in let b = tests-at_most s x.point in omega (arith, a, b)) (h.1 s))
            (λ r ne.
              Covers-up (awake k r) _ (k.semaphores r).value (k.semaphores r).queue
                (let a = now r in let b = tests-other s r x.point may ne in omega (arith, a, b))
                (h.1 r)),
      ),
    )

pub p-IsGood :
    (k : Kernel) (s : ℕ)
    → IsGood k
    → RunsAt (MayTest s) k
    → (k' : Kernel) × (p k s ≡ ok k') × IsGood k'
p-IsGood k s h (t, x, on_cpu, at, is_running, may) =
    elim (Bool-cases ((k.semaphores s).value == 0)) [
      | inl e ↦ p_sleeps-IsGood k s t x h on_cpu at is_running may e
      | inr e ↦ p_takes-IsGood k s t x h on_cpu at is_running may e
    ]

finish_sleeps :
    (k : Kernel) (t : ℕ) (x : Thread)
    → k.cpu ≡ runs t
    → k.threads t ≡ some x
    → finish k
      ≡ dispatch (record k {
        threads = put k.threads t (some (record { status = blocked; point = finished }));
        cpu = runs t;
        thread_to_be_destroyed = some t;
      })
unfolding finish sleep
finish_sleeps k t x on_cpu at =
    let y : Thread = record x { point = finished } in
    let z : Thread = record { status = blocked; point = finished } in
    let changed : finish k
        ≡ dispatch (record k {
          threads = put (put k.threads t (some y)) t (some z);
          cpu = runs t;
          thread_to_be_destroyed = some t;
        }) =
      rw (on_cpu, at, put_same k.threads t (some y)) in
    changed
    ∙ ap (λ f. dispatch (record k { threads = f; cpu = runs t; thread_to_be_destroyed = some t }))
        (put-put k.threads t (some y) (some z))

pub finish-IsGood :
    (k : Kernel)
    → IsGood k
    → RunsAt (λ q. q ≡ outside) k
    → (k' : Kernel) × (finish k ≡ ok k') × IsGood k'
finish-IsGood k h (t, x, on_cpu, at, is_running, own) =
    let y : Thread = record { status = blocked; point = finished } in
    let (k', done, good) =
      dispatch-IsGood
        (record k {
          threads = put k.threads t (some y);
          cpu = runs t;
          thread_to_be_destroyed = some t;
        })
        (Settled-put t (some y) h.0.0 (running-NotIn k h t x on_cpu at is_running)
          (running-unqueued k h t x on_cpu at is_running)
          (y, put_same k.threads t (some y), refl, refl))
        (λ r.
          Covers-up (awake k r) _ (k.semaphores r).value (k.semaphores r).queue
            (let a = awake-running k h t x on_cpu at is_running r in
              let b : tests r x.point ≡ 0 = ap (tests r) own in
              let c = total-running k h t x on_cpu at is_running r y in omega (arith, a, b, c))
            (h.1 r)) in
    (k', finish_sleeps k t x on_cpu at ∙ done, good)
