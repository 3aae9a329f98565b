-- ===== src/Threads/State.antt =====
-- The invariant of the threads: one place for each, and a status that agrees with it.
use os_project2_nach_os.Base.{
  ℕ, ◌+◌, ◌≡◌, ◌≤◌, ◌==◌, List, [], ◌∷◌, if◌then◌else◌, Option, none, some,
}
use os_project2_nach_os.Threads.{
  just_created, running, ready, blocked, Point, at_root, outside, finished, testing, Thread,
  Semaphore, Cpu, runs, idles, Kernel, Event, creates, forks, calls_p, calls_v, yields, finishes,
  idles_on,
}
use os_project2_nach_os.Threads.Queues.{Distinct, Each, total}

abbrev pub IsLive : Point → Type 0
IsLive at_root = Unit
IsLive outside = Unit
IsLive finished = ⊥
IsLive (testing s) = Unit

-- A thread that the scheduler may switch to.
abbrev pub CanRun : Option Thread → Type 0
CanRun entry = (x : Thread) × (entry ≡ some x) × (x.status ≡ ready) × IsLive x.point

abbrev pub IsRunning : Option Thread → Type 0
IsRunning entry = (x : Thread) × (entry ≡ some x) × (x.status ≡ running) × IsLive x.point

abbrev pub IsWaiting : ℕ → Option Thread → Type 0
IsWaiting s entry = (x : Thread) × (entry ≡ some x) × (x.status ≡ blocked) × (x.point ≡ testing s)

abbrev pub IsFinished : Option Thread → Type 0
IsFinished entry = (x : Thread) × (entry ≡ some x) × (x.status ≡ blocked) × (x.point ≡ finished)

abbrev pub IsDying : (ℕ → Option Thread) → Option ℕ → Type 0
IsDying threads none = Unit
IsDying threads (some d) = IsFinished (threads d)

-- The queues and the thread to be destroyed, whatever the CPU does.
pub record Settled (threads : ℕ → Option Thread) (ready_list : List ℕ) (semaphores : ℕ → Semaphore)
    (dying : Option ℕ) : Type 0 where
  pub ready_ok : Each CanRun threads ready_list
  pub ready_once : Distinct ready_list
  pub waiting_ok : (s : ℕ) → Each (IsWaiting s) threads (semaphores s).queue
  pub waiting_once : (s : ℕ) → Distinct (semaphores s).queue
  pub dying_ok : IsDying threads dying

abbrev pub IsSettled : Kernel → Type 0
IsSettled k = Settled k.threads k.ready_list k.semaphores k.thread_to_be_destroyed

-- The thread that runs; one that idles is blocked in Sleep, or it has been made ready since.
abbrev pub IsAtCpu : (ℕ → Option Thread) → Cpu → Type 0
IsAtCpu threads (runs t) = IsRunning (threads t)
IsAtCpu threads (idles t) = Unit

abbrev pub IsConsistent : Kernel → Type 0
IsConsistent k = IsSettled k × IsAtCpu k.threads k.cpu

-- 1 for a thread that is to test the value of semaphore s.
abbrev pub tests : ℕ → Point → ℕ
tests s at_root = 0
tests s outside = 0
tests s finished = 0
tests s (testing r) = if r == s then 1 else 0

abbrev pub waiter : ℕ → Option Thread → ℕ
waiter s none = 0
waiter s (some x) = tests s x.point

abbrev pub at_cpu : ℕ → (ℕ → Option Thread) → Cpu → ℕ
at_cpu s threads (runs t) = waiter s (threads t)
at_cpu s threads (idles t) = 0

-- The threads that wait in P of s and have been woken.
abbrev pub awake : Kernel → ℕ → ℕ
awake k s = total (waiter s) k.threads k.ready_list + at_cpu s k.threads k.cpu

abbrev pub Covers : ℕ → ℕ → List ℕ → Type 0
Covers n value [] = Unit
Covers n value (t ∷ ts) = value ≤ n

abbrev pub IsCovered : Semaphore → ℕ → Type 0
IsCovered x n = Covers n x.value x.queue

-- No wake-up is lost: while threads sleep on a semaphore, as many as its value are awake to take it.
abbrev pub IsAccounted : Kernel → Type 0
IsAccounted k = (s : ℕ) → IsCovered (k.semaphores s) (awake k s)

abbrev pub IsGood : Kernel → Type 0
IsGood k = IsConsistent k × IsAccounted k

-- The thread that runs is in its own code, or in the loop of P of s.
abbrev pub MayTest : ℕ → Point → Type 0
MayTest s at_root = ⊥
MayTest s outside = Unit
MayTest s finished = ⊥
MayTest s (testing r) = r ≡ s

abbrev pub RunsAt : (Point → Type 0) → Kernel → Type 0
RunsAt P k =
    (t : ℕ) × (x : Thread) × (k.cpu ≡ runs t)
    × (k.threads t ≡ some x)
    × (x.status ≡ running)
    × P x.point

-- When an operation can happen.
abbrev pub IsEnabled : Kernel → Event → Type 0
IsEnabled k (creates t) = k.threads t ≡ none
IsEnabled k (forks t) = k.threads t ≡ some (record { status = just_created; point = at_root })
IsEnabled k (calls_p s) = RunsAt (MayTest s) k
IsEnabled k (calls_v s) = Unit
IsEnabled k yields = RunsAt (λ q. q ≡ outside) k
IsEnabled k finishes = RunsAt (λ q. q ≡ outside) k
IsEnabled k idles_on = (t : ℕ) × (k.cpu ≡ idles t)
