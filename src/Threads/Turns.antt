-- ===== src/Threads/Turns.antt =====
-- The order in which Yield of threads/thread.cc serves the ready list.
use os_project2_nach_os.Base.{
  ℕ, zero, suc, ◌≡◌, refl, sym, ap, ◌∙◌, subst, List, [], ◌∷◌, ◌++◌, Option, none, some, Result, ok,
  ◌>>=◌, append_assoc, length, arith,
}
use os_project2_nach_os.Threads.{
  running, ready, Point, at_root, outside, finished, testing, Thread, runs, Kernel, resumed, yield,
}
use os_project2_nach_os.Threads.Queues.{NotIn, total}
use os_project2_nach_os.Threads.State.{IsGood}
use os_project2_nach_os.Threads.Running.{running-NotIn}
use os_project2_nach_os.Threads.Waking.{made_ready-total}
use os_project2_nach_os.Threads.Yielding.{yield-Ran, yield-IsGood}
use os_project2_nach_os.Threads.Invariant.{same_kernel}

-- 1 where a thread does not go on in its own code.
abbrev in_kernel_at : Point → ℕ
in_kernel_at at_root = 0
in_kernel_at outside = 0
in_kernel_at finished = 1
in_kernel_at (testing s) = 1

abbrev pub in_kernel : Option Thread → ℕ
in_kernel none = 0
in_kernel (some x) = in_kernel_at x.point

-- The thread t runs its own code, and so will each that is ready.
pub record HasTurn (k : Kernel) (t : ℕ) : Type 0 where
  pub good : IsGood k
  pub thread : Thread
  pub on_cpu : k.cpu ≡ runs t
  pub entry : k.threads t ≡ some thread
  pub is_running : thread.status ≡ running
  pub own : thread.point ≡ outside
  pub free : total in_kernel k.threads k.ready_list ≡ 0

-- The threads that have the CPU one after the other each call Yield.
abbrev pub yield_times : ℕ → Kernel → Result Kernel
yield_times zero k = ok k
yield_times (suc n) k = yield k >>= yield_times n

resumes_own : (q : Point) → in_kernel_at q ≡ 0 → resumed q ≡ outside
resumes_own at_root h = refl
resumes_own outside h = refl
resumes_own finished h = ground (arith, h)
resumes_own (testing s) h = ground (arith, h)

-- One Yield: the first of the ready list runs, and the caller is the last.
yield_once :
    (k : Kernel) (t n : ℕ) (ts : List ℕ)
    → HasTurn k t
    → k.ready_list ≡ n ∷ ts
    → (k' : Kernel) × (yield k ≡ ok k') × HasTurn k' n × (k'.ready_list ≡ ts ++ (t ∷ []))
yield_once k t n ts h listed =
    let (z, entry, k', done, r) =
      yield-Ran k t h.thread n ts h.good h.on_cpu h.entry h.is_running h.own listed in
    let (k2, done2, good) =
      yield-IsGood k h.good (t, h.thread, h.on_cpu, h.entry, h.is_running, h.own) in
    let out : NotIn t (n ∷ ts) =
      subst (NotIn t) listed (running-NotIn k h.good t h.thread h.on_cpu h.entry h.is_running) in
    let a = ap (total in_kernel k.threads) (sym listed) ∙ h.free in
    let b = ap in_kernel entry in
    let c = made_ready-total k.threads ts t (record h.thread { status = ready }) in_kernel out.1 in
    let d : in_kernel_at h.thread.point ≡ 0 = ap in_kernel_at h.own in
    let e = r.same_total in_kernel in
    let f = ap (total in_kernel k'.threads) r.same_list in
    (
      k',
      done,
      record {
        good = subst IsGood (same_kernel done2 done) good;
        thread = record { status = running; point = resumed z.point };
        on_cpu = r.on_cpu;
        entry = r.entry;
        is_running = refl;
        own = resumes_own z.point (omega (arith, a, b));
        free = omega (arith, a, b, c, d, e, f);
      },
      r.same_list,
    )

-- When t runs its own code and no ready thread is inside P, then the thread u, in any place of the
-- ready list, has the CPU after one Yield for each thread before it and one more, and behind it
-- wait, in this order, the threads that were behind it, t, and those that were before it.
pub yield_times-turns :
    (xs : List ℕ) (k : Kernel) (t u : ℕ) (ys : List ℕ)
    → HasTurn k t
    → k.ready_list ≡ xs ++ (u ∷ ys)
    → (k' : Kernel) × (yield_times (suc (length xs)) k ≡ ok k')
      × (k'.cpu ≡ runs u)
      × (k'.ready_list ≡ ys ++ (t ∷ xs))
yield_times-turns [] k t u ys h listed =
    let (k', done, turn, now) = yield_once k t u ys h listed in (k', rw (done), turn.on_cpu, now)
yield_times-turns (x ∷ xs) k t u ys h listed =
    let (k1, done, turn, now) = yield_once k t x (xs ++ (u ∷ ys)) h listed in
    let (k', rest, on_cpu, order) =
      yield_times-turns xs k1 x u (ys ++ (t ∷ [])) turn (now ∙ append_assoc xs (u ∷ ys) (t ∷ [])) in
    (k', rw (done) rest, on_cpu, order ∙ append_assoc ys (t ∷ []) (x ∷ xs))
