-- ===== src/Threads.antt =====
-- nachos/nachos-3.4/code/threads/thread.cc, scheduler.cc and synch.cc: threads, the ready list and
-- the semaphores, between two switches of the CPU. A thread is known by a number. A List is the
-- list of its items, as LinkedList shows of Append and Remove. The interrupt level is not kept:
-- every routine here runs with interrupts off, so its steps are one operation, and an interrupt
-- handler's V or Yield comes between two operations. Stacks and registers, with SWITCH, are left
-- out; `point` says where a thread goes on when SWITCH returns to it. A semaphore's value is an int,
-- as its 32-bit pattern: a negative value is not 0, and V of the largest int wraps, as the host does.
pub mod Queues
pub mod State
pub mod Run
pub mod Moves
pub mod Running
pub mod Blocking
pub mod Waking
pub mod Signal
pub mod Yielding
pub mod Invariant
pub mod Wakeup
pub mod Turns
mod Examples
use os_project2_nach_os.Base.{
  ℕ, ◌+◌, ◌-◌, ◌%◌, ◌^◌, Bool, true, false, List, [], ◌∷◌, ◌++◌, Option, none, some, Result, ok,
  err, assertion_failed, or_wild, ◌>>=◌, ◌==◌, if◌then◌else◌,
}

pub data ThreadStatus : Type 0 where
  just_created running ready blocked : ThreadStatus

-- Where a thread goes on: in ThreadRoot, in its own code, at the test of the loop in P of a
-- semaphore, or nowhere, after Finish.
pub data Point : Type 0 where
  at_root outside finished : Point
  testing : ℕ → Point

pub record Thread : Type 0 where
  pub status : ThreadStatus
  pub point : Point

pub record Semaphore : Type 0 where
  pub value : ℕ
  pub queue : List ℕ

-- The CPU runs currentThread, or it idles in the loop of Sleep on currentThread's stack.
pub data Cpu : Type 0 where
  runs idles : ℕ → Cpu

pub record Kernel : Type 0 where
  pub threads : ℕ → Option Thread
  pub ready_list : List ℕ
  pub semaphores : ℕ → Semaphore
  pub cpu : Cpu
  pub thread_to_be_destroyed : Option ℕ

abbrev pub put {ℓ} : {A : Type ℓ} → (ℕ → A) → ℕ → A → ℕ → A
put f t v u = if u == t then v else f u

abbrev pub current_thread : Cpu → ℕ
current_thread (runs t) = t
current_thread (idles t) = t

-- Thread::Thread
abbrev pub new_thread : Kernel → ℕ → Kernel
new_thread k t = record k {
  threads = put k.threads t (some (record { status = just_created; point = at_root }));
}

-- Initialize: the thread 0 is main, and each semaphore has its initial value.
abbrev pub booted : (ℕ → ℕ) → Kernel
booted initial = record {
  threads = put (λ t. none) 0 (some (record { status = running; point = outside }));
  ready_list = [];
  semaphores = λ s. record { value = initial s; queue = [] };
  cpu = runs 0;
  thread_to_be_destroyed = none;
}

abbrev pub set_status : Kernel → ℕ → ThreadStatus → Result Kernel
set_status k t s = or_wild (k.threads t) >>= λ x.
    ok (record k { threads = put k.threads t (some (record x { status = s })) })

abbrev pub set_point : Kernel → ℕ → Point → Result Kernel
set_point k t p = or_wild (k.threads t) >>= λ x.
    ok (record k { threads = put k.threads t (some (record x { point = p })) })

unfoldable pub ready_to_run : Kernel → ℕ → Result Kernel
ready_to_run k t =
    set_status k t ready >>= λ k'. ok (record k' { ready_list = k'.ready_list ++ (t ∷ []) })

-- Thread::~Thread of threadToBeDestroyed, called by the thread `current`.
abbrev pub destroy : Kernel → ℕ → Result Kernel
destroy k current = elim k.thread_to_be_destroyed [
  | none ↦ ok k
  | some d ↦
      if d == current
      then err assertion_failed
      else ok (record k { threads = put k.threads d none; thread_to_be_destroyed = none })
]

abbrev pub resumed : Point → Point
resumed at_root = outside
resumed outside = outside
resumed finished = finished
resumed (testing s) = testing s

-- A thread that starts in ThreadRoot has no call of SWITCH to return from, so it deletes nothing.
abbrev pub after_switch : Point → Kernel → ℕ → Result Kernel
after_switch at_root k current = ok k
after_switch outside k current = destroy k current
after_switch finished k current = destroy k current
after_switch (testing s) k current = destroy k current

-- Scheduler::Run, to where the next thread goes on.
unfoldable pub run : Kernel → ℕ → Result Kernel
run k next = or_wild (k.threads next) >>= λ x.
    after_switch x.point
      (record k {
        cpu = runs next;
        threads = put k.threads next (some (record { status = running; point = resumed x.point }));
      })
      next

-- The loop of Sleep: FindNextToRun, then Run, or Idle.
unfoldable pub dispatch : Kernel → Result Kernel
unfolding run
dispatch k = elim k.ready_list [
  | [] ↦ ok (record k { cpu = idles (current_thread k.cpu) })
  | next ∷ rest ↦ run (record k { ready_list = rest }) next
]

unfoldable pub sleep : Kernel → Result Kernel
unfolding dispatch
sleep k = set_status k (current_thread k.cpu) blocked >>= dispatch

unfoldable pub yield : Kernel → Result Kernel
unfolding run ready_to_run
yield k = elim k.ready_list [
  | [] ↦ ok k
  | next ∷ rest ↦
      ready_to_run (record k { ready_list = rest }) (current_thread k.cpu) >>= λ k'. run k' next
]

-- Thread::Fork, once the stack is allocated.
abbrev pub fork : Kernel → ℕ → Result Kernel
fork k t = ready_to_run k t

unfoldable pub finish : Kernel → Result Kernel
unfolding sleep
finish k = set_point k (current_thread k.cpu) finished >>= λ k'.
    sleep (record k' { thread_to_be_destroyed = some (current_thread k'.cpu) })

-- queue->Append
abbrev pub enqueue : Kernel → ℕ → ℕ → Kernel
enqueue k s t = record k {
  semaphores =
      put k.semaphores s
        (record { value = (k.semaphores s).value; queue = (k.semaphores s).queue ++ (t ∷ []) });
}

-- One test of the loop in Semaphore::P, and what follows it up to the next switch.
unfoldable pub p : Kernel → ℕ → Result Kernel
unfolding sleep
p k s =
    if (k.semaphores s).value == 0
    then (set_point (enqueue k s (current_thread k.cpu)) (current_thread k.cpu) (testing s)
        >>= sleep)
    else set_point
        (record k {
          semaphores =
              put k.semaphores s
                (record { value = (k.semaphores s).value - 1; queue = (k.semaphores s).queue });
        })
        (current_thread k.cpu) outside

-- The first of the queue, which queue->Remove takes off, is made ready.
abbrev pub wake : Kernel → List ℕ → Result Kernel
wake k [] = ok k
wake k (t ∷ ts) = ready_to_run k t

abbrev pub tail : List ℕ → List ℕ
tail [] = []
tail (t ∷ ts) = ts

unfoldable pub v : Kernel → ℕ → Result Kernel
unfolding ready_to_run
v k s = wake k (k.semaphores s).queue >>= λ k'. ok (record k' {
  semaphores = put k'.semaphores s (record {
    value = ((k.semaphores s).value + 1) % 2 ^ 32;
    queue = tail (k.semaphores s).queue;
  });
})

-- An operation that one of the threads calls, or that happens while the CPU idles.
pub data Event : Type 0 where
  creates forks calls_p calls_v : ℕ → Event
  yields finishes idles_on : Event

unfoldable pub operate : Kernel → Event → Result Kernel
unfolding dispatch yield finish p v ready_to_run
operate k (creates t) = ok (new_thread k t)
operate k (forks t) = fork k t
operate k (calls_p s) = p k s
operate k (calls_v s) = v k s
operate k yields = yield k
operate k finishes = finish k
operate k idles_on = dispatch k
