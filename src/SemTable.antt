-- ===== src/SemTable.antt =====
-- nachos/nachos-3.4/code/userprog/stable.h and stable.cc: the ten semaphores that user programs
-- know by name. A name is its bytes before the terminating 0. The semaphores themselves are those
-- of the threads' kernel; the number of a new one, where `new` puts it, is an argument. The value -1
-- that a call returns is `false`, and 0 is `true`.
pub mod Search
pub mod Create
pub mod Created
pub mod Calls
pub mod Init
mod Examples
use os_project2_nach_os.Base.{
  ℕ, zero, suc, ◌+◌, Bool, true, false, ◌&&◌, ◌||◌, List, [], ◌∷◌, Option, none, some, Result, ok,
  err, or_wild, wild_access, ◌>>=◌, get_elem?, set, length, replicate, ltb, ◌==◌, if◌then◌else◌,
}
use os_project2_nach_os.BitMap.{BitMap, test, find_free_slot}
use os_project2_nach_os.BitMap
use os_project2_nach_os.Threads.{Semaphore, Kernel, put, p, v}

abbrev pub max_semaphore : ℕ
max_semaphore = 10

pub record Sem : Type 0 where
  pub name : List ℕ
  pub sem : ℕ

pub record SemTable : Type 0 where
  pub bm : BitMap
  pub sem_tab : List (Option Sem)

-- STable::STable, over whatever the memory of the bitmap held.
unfoldable pub init : (ℕ → ℕ) → Result SemTable
init garbage = BitMap.init garbage max_semaphore >>= λ bm.
    ok (record { bm = bm; sem_tab = replicate max_semaphore none })

-- strcmp(a, b) == 0
abbrev pub strcmp_eq : List ℕ → List ℕ → Bool
strcmp_eq [] [] = true
strcmp_eq [] (b ∷ bs) = b == 0
strcmp_eq (a ∷ as_) [] = a == 0
strcmp_eq (a ∷ as_) (b ∷ bs) = (a == b) && (a == 0 || strcmp_eq as_ bs)

-- semTab[i]
abbrev pub sem_at : SemTable → ℕ → Result Sem
sem_at t i = or_wild (get_elem? t.sem_tab i) >>= or_wild

-- The loop of Create, Wait and Signal from slot i on, to the semaphore of that name.
unfoldable pub find_from : ℕ → ℕ → SemTable → List ℕ → Result (Option ℕ)
find_from zero i t name = ok none
find_from (suc rounds) i t name =
    let rest = find_from rounds (i + 1) t name in
    test t.bm i >>= λ used.
    if used
    then (sem_at t i >>= λ s. if strcmp_eq name s.name then ok (some s.sem) else rest)
    else rest

abbrev pub find : SemTable → List ℕ → Result (Option ℕ)
find t name = find_from max_semaphore 0 t name

-- Sem::Sem, whose strcpy writes past a name of fifty bytes.
abbrev pub new_sem : List ℕ → ℕ → Result Sem
new_sem name fresh =
    if ltb (length name) 50 then ok (record { name = name; sem = fresh }) else err wild_access

abbrev pub new_semaphore : Kernel → ℕ → ℕ → Kernel
new_semaphore k fresh initial = record k {
  semaphores = put k.semaphores fresh (record { value = initial; queue = [] });
}

-- What Create does with the slot that FindFreeSlot has marked.
abbrev pub fill :
    SemTable → Kernel → List ℕ → ℕ → ℕ → Option ℕ × BitMap → Result (Bool × SemTable × Kernel)
fill t k name initial fresh (none, bm) = ok (false, record t { bm = bm }, k)
fill t k name initial fresh (some id, bm) = new_sem name fresh >>= λ s.
    ok
      (true, record { bm = bm; sem_tab = set t.sem_tab id (some s) }, new_semaphore k fresh initial)

unfoldable pub create : SemTable → Kernel → List ℕ → ℕ → ℕ → Result (Bool × SemTable × Kernel)
unfolding find_from
create t k name initial fresh = find t name >>= λ found. elim found [
  | some s ↦ ok (false, t, k)
  | none ↦ find_free_slot t.bm >>= fill t k name initial fresh
]

unfoldable pub wait : SemTable → Kernel → List ℕ → Result (Bool × Kernel)
unfolding find_from
wait t k name = find t name >>= λ found. elim found [
  | some s ↦ p k s >>= λ k'. ok (true, k')
  | none ↦ ok (false, k)
]

unfoldable pub signal : SemTable → Kernel → List ℕ → Result (Bool × Kernel)
unfolding find_from
signal t k name = find t name >>= λ found. elim found [
  | some s ↦ v k s >>= λ k'. ok (true, k')
  | none ↦ ok (false, k)
]
