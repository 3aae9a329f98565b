-- ===== src/Cpu/Examples.antt =====
-- A machine that runs one word, and the theorems at it.
use os_project2_nach_os.Base.{
  ℕ, suc, zero, ◌+◌, ◌≡◌, refl, true, false, [], ◌∷◌, none, some, Result, ok, err, wild_access,
  Ends, length, replicate, get_or, set, if◌then◌else◌, arith,
}
use os_project2_nach_os.Memory.{
  TranslationEntry, Machine, user_mode, memory_size, overflow_exception,
}
use os_project2_nach_os.Memory.Translated.{has_page_table}
use os_project2_nach_os.Decode.{Instruction, op_add, op_sub}
use os_project2_nach_os.Cpu.{put, add32, sub32}
use os_project2_nach_os.Cpu.State.{IsReady}
use os_project2_nach_os.Cpu.Step.{check_registers, execute, one_instruction, raise_and_return}
use os_project2_nach_os.Cpu.Invariant.{one_instruction-IsReady}
use os_project2_nach_os.Cpu.Arithmetic.{
  biased, sum_overflows, difference_overflows, add_sub_overflow,
}

abbrev no_calls : Machine → Result Machine
no_calls m = ok m

abbrev page : TranslationEntry
page = record {
  virtual_page = 0;
  physical_page = 0;
  valid = true;
  read_only = false;
  used = false;
  dirty = false;
}

-- Memory of zeros: the word 0 is `sll r0, r0, 0`.
abbrev idle : Machine
idle = record {
  main_memory = replicate memory_size 0;
  registers = replicate 40 0;
  tlb = none;
  page_table = some (page ∷ []);
  page_table_size = 1;
  status = user_mode;
}

zeros : (n k : ℕ) → get_or {A = ℕ} (replicate n 0) k 0 ≡ 0
zeros zero k = refl
zeros (suc n) zero = refl
zeros (suc n) (suc k) = zeros n k

all_zeros : (n : ℕ) → length (replicate {A = ℕ} n 0) ≡ n
all_zeros zero = refl
all_zeros (suc n) = omega (arith, all_zeros n)

idle-IsReady : IsReady idle
idle-IsReady = record {
  machine = record {
    register_count = all_zeros 40;
    words = λ n. omega (arith, zeros 40 n);
    load_target = omega arith;
    memory_full = all_zeros memory_size;
    bytes = λ k. omega (arith, zeros memory_size k);
    table = has_page_table (page ∷ []) 1 (omega arith);
  };
  zero_reg = refl;
}

-- A register behind the array.
check_registers_refuses :
    check_registers idle
      (record { value = 0; op_code = op_add; rs = 40; rt = 0; rd = 0; extra = 0 })
    ≡ err wild_access
unfolding check_registers
check_registers_refuses = refl

one_instruction-IsReady_example : Ends IsReady (one_instruction no_calls idle)
one_instruction-IsReady_example = one_instruction-IsReady no_calls (λ m r. r) idle idle-IsReady

-- Register 1 holds the largest int, and register 2 holds -1.
abbrev busy : Machine
busy = record idle { registers = set (set (replicate 40 0) 1 2147483647) 2 4294967295 }

abbrev fields : Instruction
fields = record { value = 0; op_code = op_add; rs = 1; rt = 2; rd = 3; extra = 4 }

add_sub_overflow_example :
    (execute no_calls op_add busy fields ≡ (
      if sum_overflows 2147483647 4294967295
      then raise_and_return no_calls busy overflow_exception
      else put busy 3 (add32 2147483647 4294967295)))
    × (execute no_calls op_sub busy fields ≡ (
        if difference_overflows 2147483647 4294967295
        then raise_and_return no_calls busy overflow_exception
        else put busy 3 (sub32 2147483647 4294967295)))
    × (sum_overflows 2147483647 4294967295 ≡ false
        → biased (add32 2147483647 4294967295) + 2147483648 ≡ biased 2147483647 + biased 4294967295)
    × (difference_overflows 2147483647 4294967295 ≡ false
        → biased (sub32 2147483647 4294967295) + biased 4294967295 ≡ biased 2147483647 + 2147483648)
add_sub_overflow_example = add_sub_overflow no_calls busy fields (omega arith) (omega arith)
