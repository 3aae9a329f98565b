-- ===== src/Mult/Product.antt =====
-- The double word that Mult computes is the product of the operands.
use native.Mathlib.Nat.{zero-mul, mul-zero, mul-le-mul, mul-pos}
use os_project2_nach_os.Base.{
  ℕ, ◌+◌, ◌-◌, ◌*◌, ◌%◌, ◌≤◌, ◌<◌, ◌≡◌, ◌⊎◌, sym, ap, ◌∙◌, Bool, true, false, ◌&&◌, ◌||◌, not,
  Bool-cases, inl, inr, ltb, ◌==◌, if◌then◌else◌, arith,
}
use os_project2_nach_os.Mult.{
  Double, word, complement, finish, magnitude, product_is_negative, unsigned_product, mult,
}
use os_project2_nach_os.Mult.Loop.{value, double_word, IsDouble, low_bits-all, Adds, mult_loop-Adds}

product-lt : (a b : ℕ) → a < word → b < word → a * b < double_word
product-lt a b ha hb = omega (arith, at_most, bound)
  where
    bound : 4294967295 * 4294967295 < double_word
    bound = omega arith

    at_most : a * b ≤ 4294967295 * 4294967295
    at_most =
        mul-le-mul {n₁ = a} {m₁ = b} {n₂ = 4294967295} {m₂ = 4294967295} (omega arith) (omega arith)

-- The loop computes the product of two unsigned words.
unsigned_product-value :
    (a b : ℕ)
    → a < word
    → b < word
    → (value (unsigned_product a b) ≡ a * b) × IsDouble (unsigned_product a b)
unfolding unsigned_product Adds
unsigned_product-value a b ha hb =
    let first : Double = record { high = 0; low = 0 } in
    let addend : Double = record { high = 0; low = b } in
    let (sum, w) =
      mult_loop-Adds 32 a addend first (omega arith)
        (record { high_word = omega arith; low_word = hb })
        (record { high_word = omega arith; low_word = omega arith }) in
    (
      sum
          ∙ ap (λ n. (value first + n * value addend) % double_word) (low_bits-all 32 a ha)
          ∙ ap (λ n. (0 + a * n) % double_word) {x = 0 * word + b} {y = b} (omega arith)
          ∙ omega (arith, product-lt a b ha hb),
      w,
    )

-- The absolute value of a word read as a signed number.
abbrev pub absolute : ℕ → ℕ
absolute a = if ltb a 2147483648 then a else 4294967296 - a

abbrev pub signs_differ : ℕ → ℕ → Bool
signs_differ a b = if ltb a 2147483648 then not (ltb b 2147483648) else ltb b 2147483648

-- The 64-bit pattern of the product of two signed words.
abbrev pub signed_product : ℕ → ℕ → ℕ
signed_product a b =
    if signs_differ a b && not (a * b == 0)
    then 18446744073709551616 - absolute a * absolute b
    else absolute a * absolute b

magnitude-absolute : (a : ℕ) → a < word → magnitude true a ≡ absolute a
magnitude-absolute a h = ground arith

absolute-lt : (a : ℕ) → a < word → absolute a < word
absolute-lt a h = ground arith

absolute_pos : (a : ℕ) → a < word → 0 < a → 0 < absolute a
absolute_pos a h pos = ground arith

sign_of_product : (a b : ℕ) → product_is_negative true a b ≡ signs_differ a b
sign_of_product a b = ground arith

value-complement :
    (x : Double)
    → IsDouble x
    → 0 < value x
    → (value (complement x) ≡ double_word - value x) × IsDouble (complement x)
value-complement x w pos = ground arith

both_positive : (a b : ℕ) → (a == 0 || b == 0) ≡ false → (0 < a) × (0 < b)
both_positive a b h = ground arith

one_zero : (a b : ℕ) → (a == 0 || b == 0) ≡ true → (a ≡ 0) ⊎ (b ≡ 0)
one_zero a b h = ground arith

product_zero : (a b : ℕ) → (a ≡ 0) ⊎ (b ≡ 0) → (a * b ≡ 0) × (signed_product a b ≡ 0)
product_zero a b (inl q) =
    rw (q) (omega (arith, zero-mul b), ground (arith, zero-mul b, zero-mul (absolute b)))
product_zero a b (inr q) =
    rw (q) (omega (arith, mul-zero a), ground (arith, mul-zero a, mul-zero (absolute a)))

mult_signed :
    (a b : ℕ)
    → a < word
    → b < word
    → mult a b true
      ≡ finish (a == 0 || b == 0) (signs_differ a b) (unsigned_product (absolute a) (absolute b))
unfolding mult
mult_signed a b ha hb = rw (magnitude-absolute a ha, magnitude-absolute b hb, sign_of_product a b)

-- What the end of the routine makes of the loop's double word.
finish-signed_product :
    (a b : ℕ) (x : Double)
    → a < word
    → b < word
    → IsDouble x
    → value x ≡ absolute a * absolute b
    → (value (finish (a == 0 || b == 0) (signs_differ a b) x) ≡ signed_product a b)
      × IsDouble (finish (a == 0 || b == 0) (signs_differ a b) x)
finish-signed_product a b x ha hb w product = elim (Bool-cases (a == 0 || b == 0)) [
  | inl some_zero ↦ rw (some_zero) (
    sym (product_zero a b (one_zero a b some_zero)).1,
    record { high_word = omega arith; low_word = omega arith },
  )
  | inr positive ↦
      let (pa, pb) = both_positive a b positive in
      let pos = mul-pos (absolute_pos a ha pa) (absolute_pos b hb pb) in
      let not_zero : (a * b == 0) ≡ false = ground (arith, mul-pos pa pb) in
      elim (Bool-cases (signs_differ a b)) [
        | inl differ ↦
            let (negative, w') = value-complement x w (omega (arith, product, pos)) in
            rw (positive, differ, not_zero) (negative ∙ ap (double_word -◌) product, w')
        | inr alike ↦ rw (positive, alike) (product, w)
      ]
]

finish_unsigned :
    (a b : ℕ) (x : Double)
    → IsDouble x
    → value x ≡ a * b
    → (value (finish (a == 0 || b == 0) false x) ≡ a * b)
      × ((finish (a == 0 || b == 0) false x).high < word)
      × ((finish (a == 0 || b == 0) false x).low < word)
finish_unsigned a b x w product = elim (Bool-cases (a == 0 || b == 0)) [
  | inl some_zero ↦
      rw (some_zero) (sym (product_zero a b (one_zero a b some_zero)).0, omega arith, omega arith)
  | inr positive ↦ rw (positive) (product, w.high_word, w.low_word)
]

-- For operands of 32 bits, Mult leaves in hi and lo two words that together are the product: for
-- unsigned operands the number a * b, and for signed operands the two's complement pattern, of 64
-- bits, of the product of the signed numbers.
pub mult-product :
    (a b : ℕ) (signed_arith : Bool)
    → a < 4294967296
    → b < 4294967296
    → ((mult a b signed_arith).high * 4294967296 + (mult a b signed_arith).low
        ≡ (if signed_arith then signed_product a b else a * b))
      × ((mult a b signed_arith).high < 4294967296)
      × ((mult a b signed_arith).low < 4294967296)
unfolding mult
mult-product a b false ha hb =
    let (product, w) = unsigned_product-value a b ha hb in
    finish_unsigned a b (unsigned_product a b) w product
mult-product a b true ha hb =
    let (product, w) =
      unsigned_product-value (absolute a) (absolute b) (absolute-lt a ha) (absolute-lt b hb) in
    let (total, w') =
      finish-signed_product a b (unsigned_product (absolute a) (absolute b)) ha hb w product in
    rw (mult_signed a b ha hb) (total, w'.high_word, w'.low_word)
