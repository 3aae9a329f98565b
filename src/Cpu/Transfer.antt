-- ===== src/Cpu/Transfer.antt =====
-- The loads and stores of OneInstruction (nachos/nachos-3.4/code/machine/mipssim.cc). A mask or a
-- shift of a pattern is a quotient or a remainder, and `|` of disjoint bits a sum.
use os_project2_nach_os.Base.{
  ℕ, ◌+◌, ◌*◌, ◌/◌, ◌%◌, Bool, true, false, ◌&&◌, Option, none, some, Result, ok, err,
  assertion_failed, ◌>>=◌, ◌==◌, if◌then◌else◌,
}
use os_project2_nach_os.Memory.{Machine, address_error_exception}
use os_project2_nach_os.Memory.Access.{
  load_reg, load_value_reg, raise_exception, read_mem, write_mem,
}
use os_project2_nach_os.Decode.{Instruction}
use os_project2_nach_os.Cpu.{reg, add32, following, Executed, broke, returned}

-- registers[instr->rs] + instr->extra
abbrev pub address : Machine → Instruction → ℕ
address m i = add32 (reg m i.rs) i.extra

-- The bytes that LB, LBU, LH and LHU put in the register.
abbrev pub byte_value : Bool → ℕ → ℕ
byte_value signed v = if signed && (v / 128 % 2 == 1) then 4294967040 + v % 256 else v % 256

abbrev pub half_value : Bool → ℕ → ℕ
half_value signed v = if signed && (v / 32768 % 2 == 1) then 4294901760 + v % 65536 else v % 65536

-- The switches of LWL and LWR on tmp & 0x3, with the value that the register would have had.
abbrev pub left_value : ℕ → ℕ → ℕ → ℕ
left_value offset old v =
    if offset == 0
    then v
    else (if offset == 1
        then old % 256 + v % 16777216 * 256
        else (if offset == 2
            then old % 65536 + v % 65536 * 65536
            else old % 16777216 + v % 256 * 16777216))

abbrev pub right_value : ℕ → ℕ → ℕ → ℕ
right_value offset old v =
    if offset == 0
    then old / 256 * 256 + v / 16777216 % 256
    else (if offset == 1
        then old / 65536 * 65536 + v / 65536 % 65536
        else (if offset == 2 then old / 16777216 * 16777216 + v / 256 % 16777216 else v))

-- The register's value, or the one that a load is about to give it.
abbrev pub pending : Machine → ℕ → ℕ
pending m rt = if reg m load_reg == rt then reg m load_value_reg else reg m rt

-- The switches of SWL and SWR on tmp & 0x3: the word in memory merged with the register's.
abbrev pub store_left : ℕ → ℕ → ℕ → ℕ
store_left offset v r =
    if offset == 0
    then r
    else (if offset == 1
        then v / 16777216 * 16777216 + r / 256 % 16777216
        else (if offset == 2
            then v / 65536 * 65536 + r / 65536 % 65536
            else v / 256 * 256 + r / 16777216 % 256))

abbrev pub store_right : ℕ → ℕ → ℕ → ℕ
store_right offset v r =
    if offset == 0
    then v % 16777216 + r % 256 * 16777216
    else (if offset == 1
        then v % 65536 + r % 65536 * 65536
        else (if offset == 2 then v % 256 + r % 16777216 * 256 else r))

-- ASSERT((tmp & 0x3) == 0)
abbrev pub assert_aligned : ℕ → Result (Unit {0})
assert_aligned a = if a % 4 == 0 then ok tt else err assertion_failed

module _ (system_call : Machine → Result Machine) where
  -- The end of a load: `convert` makes the next load value of the value read, in the machine after.
  abbrev pub loaded : ℕ → (Machine → ℕ → ℕ) → Option ℕ × Machine → Result Executed
  loaded rt convert (none, m) = ok (returned m)
  loaded rt convert (some v, m) = ok (broke m (following m) rt (convert m v))

  abbrev pub load_from : Machine → ℕ → ℕ → ℕ → (Machine → ℕ → ℕ) → Result Executed
  load_from m a size rt convert = read_mem system_call m a size >>= loaded rt convert

  -- The test of LH, LHU and LW before the read.
  abbrev pub load_checked : Machine → ℕ → ℕ → ℕ → (Machine → ℕ → ℕ) → Result Executed
  load_checked m a size rt convert =
      if a % size == 0
      then load_from m a size rt convert
      else (raise_exception system_call m address_error_exception a >>= λ m'. ok (returned m'))

  abbrev pub stored : Bool × Machine → Result Executed
  stored (false, m) = ok (returned m)
  stored (true, m) = ok (broke m (following m) 0 0)

  abbrev pub store_to : Machine → ℕ → ℕ → ℕ → Result Executed
  store_to m a size v = write_mem system_call m a size v >>= stored

  -- SWL and SWR: the word is read, merged and written.
  abbrev pub merged : ℕ → (Machine → ℕ → ℕ) → Option ℕ × Machine → Result Executed
  merged a merge (none, m) = ok (returned m)
  merged a merge (some v, m) = store_to m (a / 4 * 4) 4 (merge m v)

  abbrev pub store_merged : Machine → ℕ → (Machine → ℕ → ℕ) → Result Executed
  store_merged m a merge =
      assert_aligned a >>= λ _. read_mem system_call m (a / 4 * 4) 4 >>= merged a merge
