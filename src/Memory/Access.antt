-- ===== src/Memory/Access.antt =====
-- ReadMem and WriteMem (machine/translate.cc), with RaiseException (machine/machine.cc),
-- DelayedLoad (machine/mipssim.cc) and the switch of ExceptionHandler (userprog/exception.cc), all
-- under nachos/nachos-3.4/code. The case SyscallException, which no access of memory raises, goes
-- on to the parameter `system_call`.
use os_project2_nach_os.Base.{
  ℕ, ◌+◌, ◌-◌, ◌^◌, Bool, true, false, List, Option, none, some, Result, ok, err, or_wild,
  assertion_failed, wild_access, machine_halted, ◌>>=◌, set, get_elem?, length, ltb, leb, ◌==◌,
  ◌&&◌, ◌||◌, if◌then◌else◌,
}
use os_project2_nach_os.Base.Slices.{copy_from, copy_to}
use os_project2_nach_os.Memory.{
  ExceptionType, syscall_exception, page_fault_exception, Machine, system_mode, user_mode,
  Translation, refused, mapped, translate,
}
use os_project2_nach_os.Memory.Words.{le_bytes, le_value}

abbrev pub load_reg : ℕ
load_reg = 37

abbrev pub load_value_reg : ℕ
load_value_reg = 38

abbrev pub bad_vaddr_reg : ℕ
bad_vaddr_reg = 39

-- registers[num] = value; a write outside the array is a wild access.
abbrev pub set_reg : List ℕ → ℕ → ℕ → Result (List ℕ)
set_reg rs num value = if ltb num (length rs) then ok (set rs num value) else err wild_access

unfoldable pub delayed_load : Machine → ℕ → ℕ → Result Machine
delayed_load m next_reg next_value = do
  target ← or_wild (get_elem? m.registers load_reg)
  value ← or_wild (get_elem? m.registers load_value_reg)
  rs ← set_reg m.registers target value
  rs ← set_reg rs load_reg next_reg
  rs ← set_reg rs load_value_reg next_value
  rs ← set_reg rs 0 0
  ok (record m { registers = rs })

-- The switch on `size`, whose default is ASSERT(FALSE).
abbrev pub is_access_size : ℕ → Bool
is_access_size size = size == 1 || size == 2 || size == 4

-- data = mainMemory[physicalAddress], of the type char
abbrev pub extended : ℕ → ℕ → ℕ
extended size v = if size == 1 && leb 128 v then v + (2 ^ 32 - 256) else v

unfoldable pub load : List ℕ → ℕ → ℕ → Result ℕ
load memory at size =
    if is_access_size size
    then (copy_from memory at size >>= λ bytes. ok (extended size (le_value bytes)))
    else err assertion_failed

unfoldable pub store : List ℕ → ℕ → ℕ → ℕ → Result (List ℕ)
store memory at size value =
    if is_access_size size then copy_to memory at (le_bytes size value) else err assertion_failed

module _ (system_call : Machine → Result Machine) where
  -- The other exceptions have no case in the switch, and the handler returns.
  abbrev pub exception_handler : ExceptionType → Machine → Result Machine
  exception_handler which m = elim which [
    | page_fault_exception ↦ err machine_halted
    | syscall_exception ↦ system_call m
    | _ ↦ ok m
  ]

  unfoldable pub raise_exception : Machine → ExceptionType → ℕ → Result Machine
  unfolding delayed_load
  raise_exception m which bad_vaddr = do
    rs ← set_reg m.registers bad_vaddr_reg bad_vaddr
    m' ← delayed_load (record m { registers = rs }) 0 0
    m'' ← exception_handler which (record m' { status = system_mode })
    ok (record m'' { status = user_mode })

  abbrev pub finish_read : Machine → ℕ → ℕ → Translation → Result (Option ℕ × Machine)
  finish_read m addr size (refused which) = raise_exception m which addr >>= λ m'. ok (none, m')
  finish_read m addr size (mapped at m') =
      load m'.main_memory at size >>= λ value. ok (some value, m')

  -- `none` is the result FALSE, with no value.
  unfoldable pub read_mem : Machine → ℕ → ℕ → Result (Option ℕ × Machine)
  unfolding translate raise_exception load
  read_mem m addr size = translate m addr size false >>= finish_read m addr size

  abbrev pub finish_write : Machine → ℕ → ℕ → ℕ → Translation → Result (Bool × Machine)
  finish_write m addr size value (refused which) =
      raise_exception m which addr >>= λ m'. ok (false, m')
  finish_write m addr size value (mapped at m') =
      store m'.main_memory at size value >>= λ memory. ok (true, record m' { main_memory = memory })

  unfoldable pub write_mem : Machine → ℕ → ℕ → ℕ → Result (Bool × Machine)
  unfolding translate raise_exception store
  write_mem m addr size value = translate m addr size true >>= finish_write m addr size value
