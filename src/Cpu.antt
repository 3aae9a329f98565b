-- ===== src/Cpu.antt =====
-- nachos/nachos-3.4/code/machine/mipssim.cc: OneInstruction, over the memory of Memory, the decoder
-- of Decode and the multiplication of Mult. A register holds an int as its 32-bit pattern; here are
-- the operations on such patterns, the registers by name, and what the switch on the operation
-- gives back. The trace that DebugIsEnabled('m') prints is left out.
pub mod Transfer
pub mod Step
pub mod State
pub mod Memory
pub mod Keeps
pub mod Execute
pub mod Invariant
pub mod Arithmetic
mod Examples
use os_project2_nach_os.Base.{
  ℕ, zero, suc, ◌+◌, ◌-◌, ◌*◌, ◌/◌, ◌%◌, ◌^◌, Bool, List, Result, ok, err, host_trap, ◌&&◌, not,
  get_or, set, ltb, ◌==◌, if◌then◌else◌,
}
use os_project2_nach_os.Memory.{Machine}
use os_project2_nach_os.Mult.{word, sign_bit, is_negative, negated, shift_right}

abbrev pub ret_addr_reg : ℕ
ret_addr_reg = 31

abbrev pub hi_reg : ℕ
hi_reg = 32

abbrev pub lo_reg : ℕ
lo_reg = 33

abbrev pub pc_reg : ℕ
pc_reg = 34

abbrev pub next_pc_reg : ℕ
next_pc_reg = 35

abbrev pub prev_pc_reg : ℕ
prev_pc_reg = 36

abbrev pub num_total_regs : ℕ
num_total_regs = 40

-- registers[n]. That n is below NumTotalRegs, the length of the array, is tested for the whole of an
-- instruction before its switch, by check_registers.
abbrev pub reg : Machine → ℕ → ℕ
reg m n = get_or m.registers n 0

abbrev pub with_reg : Machine → ℕ → ℕ → Machine
with_reg m n v = record m { registers = set m.registers n v }

abbrev pub add32 : ℕ → ℕ → ℕ
add32 a b = (a + b) % word

abbrev pub sub32 : ℕ → ℕ → ℕ
sub32 a b = (a + word - b) % word

-- ~a
abbrev pub invert : ℕ → ℕ
invert a = word - 1 - a

-- a << k and, for an int, a >> k. The host's shifts take the low five bits of k.
abbrev pub shift_left_by : ℕ → ℕ → ℕ
shift_left_by a k = a * 2 ^ (k % 32) % word

abbrev pub shift_right_times : ℕ → ℕ → ℕ
shift_right_times zero a = a
shift_right_times (suc k) a = shift_right_times k (shift_right a)

abbrev pub shift_right_by : ℕ → ℕ → ℕ
shift_right_by a k = shift_right_times (k % 32) a

-- (a ^ b) & SIGN_BIT
abbrev pub signs_differ : ℕ → ℕ → Bool
signs_differ a b = if is_negative a then not (is_negative b) else is_negative b

-- a < b, for ints
abbrev pub signed_lt : ℕ → ℕ → Bool
signed_lt a b = if signs_differ a b then is_negative a else ltb a b

abbrev pub bool_int : Bool → ℕ
bool_int b = if b then 1 else 0

-- IndexToAddr
abbrev pub index_to_addr : ℕ → ℕ
index_to_addr x = x * 4 % word

-- extra & 0xffff
abbrev pub low_half : ℕ → ℕ
low_half x = x % 65536

abbrev pub absolute : ℕ → ℕ
absolute a = if is_negative a then word - a else a

-- a / b and a % b for ints, b not 0: the quotient is cut towards 0. The host traps where the
-- quotient is 2 ^ 31.
abbrev pub divide : ℕ → ℕ → Result (ℕ × ℕ)
divide a b =
    if (a == sign_bit) && (b == word - 1)
    then err host_trap
    else ok (
      if signs_differ a b then negated (absolute a / absolute b) else absolute a / absolute b,
      if is_negative a then negated (absolute a % absolute b) else absolute a % absolute b,
    )

-- How the switch ends: by `break`, with pcAfter, nextLoadReg and nextLoadValue, or by `return`.
pub data Executed : Type 0 where
  broke : Machine → ℕ → ℕ → ℕ → Executed
  returned : Machine → Executed

-- pcAfter before the switch
abbrev pub following : Machine → ℕ
following m = add32 (reg m next_pc_reg) 4

-- A case that only sets a register.
abbrev pub put : Machine → ℕ → ℕ → Result Executed
put m n v = ok (broke (with_reg m n v) (following m) 0 0)

-- A case that sets Hi and Lo.
abbrev pub put_hi_lo : Machine → ℕ → ℕ → Result Executed
put_hi_lo m hi lo = ok (broke (with_reg (with_reg m lo_reg lo) hi_reg hi) (following m) 0 0)

-- A case that may branch, from the machine as its link left it.
abbrev pub branch : Machine → ℕ → Bool → Result Executed
branch m extra taken =
    ok
      (broke m (if taken then add32 (reg m next_pc_reg) (index_to_addr extra) else following m) 0 0)

-- registers[n] = registers[NextPCReg] + 4
abbrev pub link : Machine → ℕ → Machine
link m n = with_reg m n (add32 (reg m next_pc_reg) 4)
