-- ===== src/Mult/Loop.antt =====
-- The loop of Mult: its rounds add the product of the addend and of the operand's lowest bits.
use native.Mathlib.Nat.{pow-suc, mul-add, add-mul, mul_assoc, one-mul, mul_left_comm}
use os_project2_nach_os.Base.{
  ℕ, zero, suc, ◌+◌, ◌*◌, ◌/◌, ◌%◌, ◌^◌, ◌≤◌, ◌<◌, ◌≡◌, refl, sym, ap, ◌∙◌, true, false, Bool-cases,
  inl, inr, ◌==◌, arith,
}
use os_project2_nach_os.Mult.{
  Double, word, is_negative, shift_right, add_double, double_shift_left, mult_loop,
}

-- What the two words stand for.
abbrev pub value : Double → ℕ
value x = x.high * word + x.low

-- 2 ^ 64
abbrev pub double_word : ℕ
double_word = 18446744073709551616

pub record IsDouble (x : Double) : Type 0 where
  pub high_word : x.high < word
  pub low_word : x.low < word

value-add_double :
    (x b : Double)
    → IsDouble x
    → IsDouble b
    → (value (add_double x b) ≡ (value x + value b) % double_word) × IsDouble (add_double x b)
value-add_double x b wx wb = ground arith

value-double_shift_left :
    (b : Double)
    → IsDouble b
    → (value (double_shift_left b) ≡ 2 * value b % double_word) × IsDouble (double_shift_left b)
value-double_shift_left b wb = ground arith

-- The number of the lowest r bits.
unfoldable pub low_bits : ℕ → ℕ → ℕ
low_bits zero a = 0
low_bits (suc r) a = a % 2 + 2 * low_bits r (a / 2)

low_bits-zero : (r : ℕ) → low_bits r 0 ≡ 0
unfolding low_bits
low_bits-zero zero = refl
low_bits-zero (suc r) = omega (arith, low_bits-zero r)

pub low_bits-all : (r a : ℕ) → a < 2 ^ r → low_bits r a ≡ a
unfolding low_bits
low_bits-all zero a h = omega arith
low_bits-all (suc r) a h = omega (arith, low_bits-all r (a / 2) (omega (arith, pow-suc 2 r)))

low_bits-add_pow : (r n a : ℕ) → r ≤ n → low_bits r (a + 2 ^ n) ≡ low_bits r a
unfolding low_bits
low_bits-add_pow zero n a h = refl
low_bits-add_pow (suc r) zero a h = absurd (omega arith)
low_bits-add_pow (suc r) (suc n) a h =
    omega (arith, ap (low_bits r) half, low_bits-add_pow r n (a / 2) (omega arith), pow-suc 2 n)
  where
    half : (a + 2 ^ suc n) / 2 ≡ a / 2 + 2 ^ n
    half = omega (arith, pow-suc 2 n)

low_bits-shift_right : (r a : ℕ) → r ≤ 31 → low_bits r (shift_right a) ≡ low_bits r (a / 2)
low_bits-shift_right r a h = elim (Bool-cases (is_negative a)) [
  | inl below ↦ rw (below) (low_bits-add_pow r 31 (a / 2) h)
  | inr above ↦ rw (above) (ap (low_bits r) (omega arith))
]

-- One round, over the double words: what is left to add is doubled.
mod_of_sum :
    (total part k : ℕ) → total ≡ part + k * double_word → part % double_word ≡ total % double_word
mod_of_sum total part k h = omega arith

scaled :
    (c addend : ℕ)
    → c * (2 * addend)
      ≡ c * (2 * addend % double_word) + c * (2 * addend / double_word) * double_word
scaled c addend =
    ap (c *◌) split
    ∙ mul-add c (2 * addend % double_word) (2 * addend / double_word * double_word)
    ∙ ap (c * (2 * addend % double_word) +◌)
        (sym (mul_assoc c (2 * addend / double_word) double_word))
  where
    split : 2 * addend ≡ 2 * addend % double_word + 2 * addend / double_word * double_word
    split = omega arith

round_value :
    (c sum sum' addend addend' : ℕ)
    → sum' ≡ sum % double_word
    → addend' ≡ 2 * addend % double_word
    → (sum' + c * addend') % double_word ≡ (sum + c * (2 * addend)) % double_word
round_value c sum sum' addend addend' hs ha =
    rw (hs, ha)
      (mod_of_sum (sum + c * (2 * addend)) (sum % double_word + c * (2 * addend % double_word))
        (sum / double_word + c * (2 * addend / double_word)) (omega (arith, scaled c addend)))

even_step : (x c b : ℕ) → x + c * (2 * b) ≡ x + (0 + 2 * c) * b
even_step x c b =
    omega (arith, mul_assoc 2 c b, mul_left_comm c 2 b)
    ∙ ap (λ n. x + n * b) {x = 2 * c} {y = 0 + 2 * c} (omega arith)

odd_step : (x c b : ℕ) → x + b + c * (2 * b) ≡ x + (1 + 2 * c) * b
odd_step x c b = omega (arith, mul_assoc 2 c b, mul_left_comm c 2 b, add-mul 1 (2 * c) b, one-mul b)

odd_total :
    (a c x b : ℕ)
    → (a % 2 == 1) ≡ true
    → (x + b + c * (2 * b)) % double_word ≡ (x + (a % 2 + 2 * c) * b) % double_word
odd_total a c x b odd = rw (is_one) (ap (◌% double_word) (odd_step x c b))
  where
    is_one : a % 2 ≡ 1
    is_one = ground (arith, odd)

last_total :
    (a c x b : ℕ)
    → (a % 2 == 1) ≡ true
    → c ≡ 0
    → (x + b) % double_word ≡ (x + (a % 2 + 2 * c) * b) % double_word
last_total a c x b odd none_left = rw (none_left) (
    ap (◌% double_word) {x = x + b} {y = x + b + 0 * (2 * b)} (omega arith) ∙ odd_total a 0 x b odd)

even_total :
    (a c x b : ℕ)
    → (a % 2 == 1) ≡ false
    → (x + c * (2 * b)) % double_word ≡ (x + (a % 2 + 2 * c) * b) % double_word
even_total a c x b even = rw (is_zero) (ap (◌% double_word) (even_step x c b))
  where
    is_zero : a % 2 ≡ 0
    is_zero = ground (arith, even)

last_bits : (r a : ℕ) → (a / 2 == 0) ≡ true → low_bits r (a / 2) ≡ 0
last_bits r a last = ap (low_bits r) {x = a / 2} {y = 0} (ground (arith, last)) ∙ low_bits-zero r

-- What r rounds compute: they add the product of b and of a's lowest r bits.
unfoldable pub Adds : ℕ → ℕ → Double → Double → Double → Type 0
Adds r a b x result =
    (value result ≡ (value x + low_bits r a * value b) % double_word) × IsDouble result

-- The rounds after the first, which made the sum S of x.
later_rounds :
    (r a S : ℕ) (b x' result : Double)
    → r ≤ 31
    → IsDouble b
    → value x' ≡ S % double_word
    → Adds r (shift_right a) (double_shift_left b) x' result
    → (value result ≡ (S + low_bits r (a / 2) * (2 * value b)) % double_word) × IsDouble result
unfolding Adds
later_rounds r a S b x' result h wb added (rest, w) =
    let (shifted, wb') = value-double_shift_left b wb in
    (
      rest
          ∙ ap (λ c. (value x' + c * value (double_shift_left b)) % double_word)
              (low_bits-shift_right r a h)
          ∙ round_value (low_bits r (a / 2)) S (value x') (value b) (value (double_shift_left b))
              added shifted,
      w,
    )

pub mult_loop-Adds :
    (r a : ℕ) (b x : Double) → r ≤ 32 → IsDouble b → IsDouble x → Adds r a b x (mult_loop r a b x)
unfolding mult_loop low_bits Adds
mult_loop-Adds zero a b x h wb wx = (omega (arith, wx.high_word, wx.low_word), wx)
mult_loop-Adds (suc r) a b x h wb wx = elim (Bool-cases (a % 2 == 1)) [
  | inl odd ↦
      let (added, wx') = value-add_double x b wx wb in
      elim (Bool-cases (a / 2 == 0)) [
        | inl last ↦
            rw (odd, last)
              (
                added
                    ∙ last_total a (low_bits r (a / 2)) (value x) (value b) odd
                        (last_bits r a last),
                wx',
              )
        | inr more ↦
            let (summed, w) =
              later_rounds r a (value x + value b) b (add_double x b)
                (mult_loop r (shift_right a) (double_shift_left b) (add_double x b)) (omega arith)
                wb added
                (mult_loop-Adds r (shift_right a) (double_shift_left b) (add_double x b)
                  (omega arith) (value-double_shift_left b wb).1 wx') in
            rw (odd, more) (summed ∙ odd_total a (low_bits r (a / 2)) (value x) (value b) odd, w)
      ]
  | inr even ↦
      let (summed, w) =
        later_rounds r a (value x) b x (mult_loop r (shift_right a) (double_shift_left b) x)
          (omega arith) wb (omega (arith, wx.high_word, wx.low_word))
          (mult_loop-Adds r (shift_right a) (double_shift_left b) x (omega arith)
            (value-double_shift_left b wb).1 wx) in
      rw (even) (summed ∙ even_total a (low_bits r (a / 2)) (value x) (value b) even, w)
]
