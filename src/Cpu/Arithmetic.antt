-- ===== src/Cpu/Arithmetic.antt =====
-- What the arithmetic and the shifts of OneInstruction compute.
use native.Mathlib.Nat.{pow-suc, one-le-pow, div-mul-le_self, mul-le-mul_left}
use os_project2_nach_os.Base.{
  ℕ, zero, suc, ◌+◌, ◌/◌, ◌%◌, ◌^◌, ◌≤◌, ◌<◌, ◌≡◌, ◌≢◌, refl, Bool, false, ◌&&◌, ◌||◌, not, Result,
  ltb, leb, if◌then◌else◌, arith,
}
use os_project2_nach_os.Base.Bits.{bit_or_self}
use os_project2_nach_os.Memory.{Machine}
use os_project2_nach_os.Decode.{Instruction, op_add, op_sub, op_or, op_srl}
use os_project2_nach_os.Mult.{word, shift_right}
use os_project2_nach_os.Cpu.{
  reg, add32, sub32, signs_differ, shift_right_by, shift_right_times, put,
}
use os_project2_nach_os.Cpu.Step.{raise_and_return, execute}
use os_project2_nach_os.Memory.{overflow_exception}

-- The signed number of a pattern, counted from -2 ^ 31 on.
abbrev pub biased : ℕ → ℕ
biased a = (a + 2147483648) % 4294967296

-- The sum, or the difference, of the signed numbers is no int.
abbrev pub sum_overflows : ℕ → ℕ → Bool
sum_overflows a b = ltb (biased a + biased b) 2147483648 || leb 6442450944 (biased a + biased b)

abbrev pub difference_overflows : ℕ → ℕ → Bool
difference_overflows a b =
    ltb (biased a + 2147483648) (biased b) || leb (biased b + 2147483648) (biased a)

add_test :
    (a b : ℕ)
    → a < word
    → b < word
    → (not (signs_differ a b) && signs_differ a (add32 a b)) ≡ sum_overflows a b
add_test a b ha hb = ground arith

sub_test :
    (a b : ℕ)
    → a < word
    → b < word
    → (signs_differ a b && signs_differ a (sub32 a b)) ≡ difference_overflows a b
sub_test a b ha hb = ground arith

add_value :
    (a b : ℕ)
    → a < word
    → b < word
    → sum_overflows a b ≡ false
    → biased (add32 a b) + 2147483648 ≡ biased a + biased b
add_value a b ha hb h = ground arith

sub_value :
    (a b : ℕ)
    → a < word
    → b < word
    → difference_overflows a b ≡ false
    → biased (sub32 a b) + biased b ≡ biased a + 2147483648
sub_value a b ha hb h = ground arith

module _ (system_call : Machine → Result Machine) (m : Machine) (i : Instruction) where
  -- ADD raises the overflow exception exactly where the sum of the two signed registers is no int,
  -- and otherwise puts that sum in the register; SUB does the same for the difference. The registers
  -- hold 32 bits.
  pub add_sub_overflow :
      reg m i.rs < 4294967296
      → reg m i.rt < 4294967296
      → (execute system_call op_add m i ≡ (
          if sum_overflows (reg m i.rs) (reg m i.rt)
          then raise_and_return system_call m overflow_exception
          else put m i.rd (add32 (reg m i.rs) (reg m i.rt))))
        × (execute system_call op_sub m i ≡ (
            if difference_overflows (reg m i.rs) (reg m i.rt)
            then raise_and_return system_call m overflow_exception
            else put m i.rd (sub32 (reg m i.rs) (reg m i.rt))))
        × (sum_overflows (reg m i.rs) (reg m i.rt) ≡ false
            → biased (add32 (reg m i.rs) (reg m i.rt)) + 2147483648
              ≡ biased (reg m i.rs) + biased (reg m i.rt))
        × (difference_overflows (reg m i.rs) (reg m i.rt) ≡ false
            → biased (sub32 (reg m i.rs) (reg m i.rt)) + biased (reg m i.rt)
              ≡ biased (reg m i.rs) + 2147483648)
  unfolding execute
  add_sub_overflow ha hb = (
    rw (add_test (reg m i.rs) (reg m i.rt) ha hb),
    rw (sub_test (reg m i.rs) (reg m i.rt) ha hb),
    add_value (reg m i.rs) (reg m i.rt) ha hb,
    sub_value (reg m i.rs) (reg m i.rt) ha hb,
  )

  -- OR does not read the register rt: it copies the register rs.
  pub or_copies_rs : execute system_call op_or m i ≡ put m i.rd (reg m i.rs)
  unfolding execute
  or_copies_rs = rw (bit_or_self (reg m i.rs))

negative_stays : (k a : ℕ) → a < word → 2147483648 ≤ a → 2147483648 ≤ shift_right_times k a
negative_stays zero a small h = h
negative_stays (suc k) a small h = negative_stays k (shift_right a) (ground arith) (ground arith)

two-le-pow : (k : ℕ) → 0 < k → 2 ≤ 2 ^ k
two-le-pow zero h = absurd (omega arith)
two-le-pow (suc k) h = omega (arith, pow-suc 2 k, one-le-pow k 2)

small_quotient : (k a : ℕ) → 0 < k → a < 4294967296 → a / 2 ^ k < 2147483648
small_quotient k a pos small = omega (
  arith,
  div-mul-le_self a (2 ^ k),
  mul-le-mul_left {m = 2} {n = 2 ^ k} (a / 2 ^ k) (two-le-pow k pos),
)

module _ (system_call : Machine → Result Machine) (m : Machine) (i : Instruction) where
  -- SRL, the logical shift to the right, keeps the sign: of a register with bit 31 set it makes one
  -- with bit 31 set, so by one bit or more it does not give the quotient by 2 ^ extra.
  pub srl_keeps_sign :
      reg m i.rt < 4294967296
      → 2147483648 ≤ reg m i.rt
      → 0 < i.extra
      → i.extra < 32
      → (v : ℕ) × (execute system_call op_srl m i ≡ put m i.rd v)
        × (2147483648 ≤ v)
        × (v ≢ reg m i.rt / 2 ^ i.extra)
  unfolding execute
  srl_keeps_sign small negative pos below = (
    shift_right_by (reg m i.rt) i.extra,
    refl,
    negative_stays (i.extra % 32) (reg m i.rt) small negative,
    λ same. absurd (
        omega (
          arith,
          same,
          negative_stays (i.extra % 32) (reg m i.rt) small negative,
          small_quotient i.extra (reg m i.rt) pos small,
        )),
  )
