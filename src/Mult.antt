-- ===== src/Mult.antt =====
-- nachos/nachos-3.4/code/machine/mipssim.cc: Mult, the 64-bit product of two registers by shifts and
-- additions of 32-bit words. An int and an unsigned int are their 32-bit pattern; what wraps is
-- reduced by % 2 ^ 32, and a right shift of an int copies its sign.
pub mod Loop
pub mod Product
mod Examples
use os_project2_nach_os.Base.{
  ℕ, zero, suc, ◌+◌, ◌-◌, ◌*◌, ◌/◌, ◌%◌, Bool, true, false, ◌&&◌, ◌||◌, not, ltb, leb, ◌==◌,
  if◌then◌else◌,
}

-- 2 ^ 32 and 2 ^ 31
abbrev pub word : ℕ
word = 4294967296

abbrev pub sign_bit : ℕ
sign_bit = 2147483648

abbrev pub is_negative : ℕ → Bool
is_negative a = leb sign_bit a

-- -a
abbrev pub negated : ℕ → ℕ
negated a = (word - a) % word

abbrev pub shift_right : ℕ → ℕ
shift_right a = a / 2 + (if is_negative a then sign_bit else 0)

abbrev pub shift_left : ℕ → ℕ
shift_left a = a * 2 % word

-- The words bHi and bLo, and hi and lo.
pub record Double : Type 0 where
  pub high : ℕ
  pub low : ℕ

-- lo += bLo; if (lo < bLo) hi += 1; hi += bHi;
abbrev pub add_double : Double → Double → Double
add_double x b =
    let sum = (x.low + b.low) % word in
    let carried = if ltb sum b.low then (x.high + 1) % word else x.high in
    record { high = (carried + b.high) % word; low = sum }

-- bHi <<= 1; if (bLo & 0x80000000) bHi |= 1; bLo <<= 1;
abbrev pub double_shift_left : Double → Double
double_shift_left b = record {
  high = shift_left b.high + (if is_negative b.low then 1 else 0);
  low = shift_left b.low;
}

-- The loop, with the rounds left.
unfoldable pub mult_loop : ℕ → ℕ → Double → Double → Double
mult_loop zero a b x = x
mult_loop (suc rounds) a b x =
    let x' = if a % 2 == 1 then add_double x b else x in
    let later = mult_loop rounds (shift_right a) (double_shift_left b) x' in
    if (a % 2 == 1) && (a / 2 == 0) then x' else later

-- hi = ~hi; lo = ~lo; lo++; if (lo == 0) hi++;
abbrev pub complement : Double → Double
complement x =
    let low' = (word - 1 - x.low + 1) % word in
    let high' = word - 1 - x.high in
    record { high = if low' == 0 then (high' + 1) % word else high'; low = low' }

abbrev pub magnitude : Bool → ℕ → ℕ
magnitude signed_arith a = if signed_arith && is_negative a then negated a else a

-- `negative`, flipped once for each negative operand.
abbrev pub product_is_negative : Bool → ℕ → ℕ → Bool
product_is_negative signed_arith a b =
    signed_arith && (if is_negative a then not (is_negative b) else is_negative b)

-- The loop from its first round.
unfoldable pub unsigned_product : ℕ → ℕ → Double
unfolding mult_loop
unsigned_product a b = mult_loop 32 a (record { high = 0; low = b }) (record { high = 0; low = 0 })

-- The early return for a zero operand, and the sign of the result.
abbrev pub finish : Bool → Bool → Double → Double
finish true negative x = record { high = 0; low = 0 }
finish false true x = complement x
finish false false x = x

unfoldable pub mult : ℕ → ℕ → Bool → Double
mult a b signed_arith =
    finish (a == 0 || b == 0) (product_is_negative signed_arith a b)
      (unsigned_product (magnitude signed_arith a) (magnitude signed_arith b))
