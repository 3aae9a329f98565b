-- ===== src/SemCalls.antt =====
-- nachos/nachos-3.4/code/userprog/exception.cc: the system calls on semaphores, over the table of
-- semaphores and the threads. Register 4 is the address of the name; what a call leaves in register
-- 2 is a field. Down is modelled up to the switch of the CPU: a process that waits has its answer in
-- register 2 already. The initial value in register 5, an int, is its 32-bit pattern, and `new` does
-- not return NULL.
pub mod Strings
pub mod Names
mod Examples
use os_project2_nach_os.Base.{ℕ, Bool, Result, ok, ◌>>=◌, if◌then◌else◌}
use os_project2_nach_os.Threads.{Kernel}
use os_project2_nach_os.SemTable.{SemTable, create, wait, signal}
use os_project2_nach_os.UserMemory.{string_at}
use os_project2_nach_os.FileCalls.{minus_one}

pub record SemState : Type 0 where
  pub user : ℕ → ℕ
  pub sems : SemTable
  pub kernel : Kernel
  pub r2 : ℕ

-- MAX_FILENAME_LEN + 1, for CreateSemaphore.
abbrev pub create_limit : ℕ
create_limit = 201

-- MaxFileLength + 1, for Up and Down.
abbrev pub use_limit : ℕ
use_limit = 33

abbrev pub answer : Bool → ℕ
answer found = if found then 0 else minus_one

-- `fresh` is where `new` puts the semaphore.
unfoldable pub handle_create_semaphore : ℕ → ℕ → ℕ → SemState → Result SemState
handle_create_semaphore fresh r4 r5 s =
    create s.sems s.kernel (string_at s.user r4 create_limit) r5 fresh >>= λ (done, t, k).
    ok (record s { sems = t; kernel = k; r2 = answer done })

unfoldable pub handle_up : ℕ → SemState → Result SemState
handle_up r4 s = signal s.sems s.kernel (string_at s.user r4 use_limit) >>= λ (found, k).
    ok (record s { kernel = k; r2 = answer found })

unfoldable pub handle_down : ℕ → SemState → Result SemState
handle_down r4 s = wait s.sems s.kernel (string_at s.user r4 use_limit) >>= λ (found, k).
    ok (record s { kernel = k; r2 = answer found })
