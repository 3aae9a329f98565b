-- ===== src/Base/Bits.antt =====
-- Bit k of a word, and what `|`, `&` and `& ~` with a single bit do to it.
use Prim.Native.Nat.{
  ℕ, zero, suc, ◌+◌, ◌-◌, ◌*◌, ◌/◌, ◌%◌, ◌^◌, ◌≤◌, ◌<◌, min, max, bit_and, bit_or, digits, bitwise,
  bit_and-bitwise, bit_or-bitwise, bit_xor, bit_xor-bitwise, differ,
}
use mathlib.Core.Path.{◌≡◌, refl, ◌∙◌, ap}
use mathlib.Core.Bool.{Bool, true, false, ◌||◌}
use native.Mathlib.Omega.{arith}
use native.Mathlib.Nat.{pow-suc, one-le-pow}
use os_project2_nach_os.Base.Tests.{◌==◌, if◌then◌else◌}

-- Any two fuels above the first operand give the same digits.
same_digits :
    (z : ℕ → ℕ) (f : ℕ → ℕ → ℕ) (a b n m : ℕ) → a ≤ n → a ≤ m → digits z f n a b ≡ digits z f m a b
same_digits z f zero b zero zero hn hm = refl
same_digits z f zero b zero (suc m) hn hm = refl
same_digits z f zero b (suc n) zero hn hm = refl
same_digits z f zero b (suc n) (suc m) hn hm = refl
same_digits z f (suc a) b zero m hn hm = absurd (omega arith)
same_digits z f (suc a) b (suc n) zero hn hm = absurd (omega arith)
same_digits z f (suc a) b (suc n) (suc m) hn hm =
    ap (λ t. t * 2 + f (suc a % 2) (b % 2))
      (same_digits z f (suc a / 2) (b / 2) n m (omega arith) (omega arith))

-- The lowest digit of a bitwise operation.
halve :
    (z : ℕ → ℕ) (f : ℕ → ℕ → ℕ) (a b : ℕ)
    → bitwise z f (suc a) b ≡ bitwise z f (suc a / 2) (b / 2) * 2 + f (suc a % 2) (b % 2)
halve z f a b =
    ap (λ t. t * 2 + f (suc a % 2) (b % 2))
      (same_digits z f (suc a / 2) (b / 2) a (suc a / 2) (omega arith) (omega arith))

pub bit_or-halve : (a b : ℕ) → bit_or a b ≡ bit_or (a / 2) (b / 2) * 2 + max (a % 2) (b % 2)
bit_or-halve zero b = omega (arith, bit_or-bitwise 0 b, bit_or-bitwise 0 (b / 2))
bit_or-halve (suc a) b =
    omega
      (arith, bit_or-bitwise (suc a) b, bit_or-bitwise (suc a / 2) (b / 2), halve (λ t. t) max a b)

pub bit_and-halve : (a b : ℕ) → bit_and a b ≡ bit_and (a / 2) (b / 2) * 2 + min (a % 2) (b % 2)
bit_and-halve zero b = omega (arith, bit_and-bitwise 0 b, bit_and-bitwise 0 (b / 2))
bit_and-halve (suc a) b =
    omega (
      arith,
      bit_and-bitwise (suc a) b,
      bit_and-bitwise (suc a / 2) (b / 2),
      halve (λ t. 0) min a b,
    )

bit_and-halve-half : (a b : ℕ) → bit_and a b / 2 ≡ bit_and (a / 2) (b / 2)
bit_and-halve-half a b = omega (arith, bit_and-halve a b)

bit_and-parity : (a b : ℕ) → bit_and a b % 2 ≡ min (a % 2) (b % 2)
bit_and-parity a b = omega (arith, bit_and-halve a b)

-- Bit k of the word w.
abbrev pub bit : ℕ → ℕ → Bool
bit w zero = w % 2 == 1
bit w (suc k) = bit (w / 2) k

bit_or-zero : (n a : ℕ) → a ≤ n → bit_or a 0 ≡ a
bit_or-zero n zero h = bit_or-bitwise 0 0
bit_or-zero zero (suc a) h = absurd (omega arith)
bit_or-zero (suc n) (suc a) h =
    omega (arith, bit_or-halve (suc a) 0, bit_or-zero n (suc a / 2) (omega arith))

bit_and-zero : (n a : ℕ) → a ≤ n → bit_and a 0 ≡ 0
bit_and-zero n zero h = bit_and-bitwise 0 0
bit_and-zero zero (suc a) h = absurd (omega arith)
bit_and-zero (suc n) (suc a) h =
    omega (arith, bit_and-halve (suc a) 0, bit_and-zero n (suc a / 2) (omega arith))

-- A power of two halves to the one below it.
halve_pow : (k : ℕ) → (2 ^ suc k / 2 ≡ 2 ^ k) × (2 ^ suc k % 2 ≡ 0)
halve_pow k = omega (arith, pow-suc 2 k)

bit_or_pow : (w k : ℕ) → bit_or w (2 ^ suc k) ≡ bit_or (w / 2) (2 ^ k) * 2 + w % 2
bit_or_pow w k = bit_or-halve w (2 ^ suc k) ∙ rw ((halve_pow k).0, (halve_pow k).1) (omega arith)

bit_and_pow : (w k : ℕ) → bit_and w (2 ^ suc k) ≡ bit_and (w / 2) (2 ^ k) * 2
bit_and_pow w k = bit_and-halve w (2 ^ suc k) ∙ rw ((halve_pow k).0, (halve_pow k).1) (omega arith)

-- `w & (1 << k)` is the bit, in its place.
pub bit_and-bit : (w k : ℕ) → bit_and w (2 ^ k) ≡ (if bit w k then 2 ^ k else 0)
bit_and-bit w zero = ground (arith, bit_and-halve w 1, bit_and-zero (w / 2) (w / 2))
bit_and-bit w (suc k) = ground (arith, bit_and_pow w k, bit_and-bit (w / 2) k, pow-suc 2 k)

==-suc : (j k : ℕ) → (j == k) ≡ (suc j == suc k)
==-suc j k = ground arith

==-zero-suc : (j : ℕ) → (suc j == 0) ≡ false
==-zero-suc j = ground arith

-- `w | (1 << k)` sets bit k and no other.
pub bit-bit_or : (w k j : ℕ) → bit (bit_or w (2 ^ k)) j ≡ (j == k || bit w j)
bit-bit_or w zero zero = ground (arith, bit_or-halve w 1)
bit-bit_or w zero (suc j) = rw (==-zero-suc j, lower)
  where
    lower : bit_or w 1 / 2 ≡ w / 2
    lower = omega (arith, bit_or-halve w 1, bit_or-zero (w / 2) (w / 2))
bit-bit_or w (suc k) zero = ground (arith, bit_or_pow w k)
bit-bit_or w (suc k) (suc j) = rw (← ==-suc j k, lower) (bit-bit_or (w / 2) k j)
  where
    lower : bit_or w (2 ^ suc k) / 2 ≡ bit_or (w / 2) (2 ^ k)
    lower = omega (arith, bit_or_pow w k)

-- `~(1 << k)` over n bits.
abbrev pub clear_mask : ℕ → ℕ → ℕ
clear_mask n k = 2 ^ n - 1 - 2 ^ k

-- The low n bits, all set.
halve_ones : (n : ℕ) → ((2 ^ suc n - 1) / 2 ≡ 2 ^ n - 1) × ((2 ^ suc n - 1) % 2 ≡ 1)
halve_ones n = omega (arith, pow-suc 2 n, one-le-pow n 2)

bit-ones : (w n j : ℕ) → j < n → bit (bit_and w (2 ^ n - 1)) j ≡ bit w j
bit-ones w zero j h = absurd (omega arith)
bit-ones w (suc n) zero h = ground (arith, bit_and-halve w (2 ^ suc n - 1), halve_ones n)
bit-ones w (suc n) (suc j) h = rw (lower) (bit-ones (w / 2) n j (omega arith))
  where
    lower : bit_and w (2 ^ suc n - 1) / 2 ≡ bit_and (w / 2) (2 ^ n - 1)
    lower = bit_and-halve-half w (2 ^ suc n - 1) ∙ rw ((halve_ones n).0)

pub pow-lt : (k n : ℕ) → k < n → 2 ^ k < 2 ^ n
pow-lt k zero h = absurd (omega arith)
pow-lt zero (suc n) h = omega (arith, pow-suc 2 n, one-le-pow n 2)
pow-lt (suc k) (suc n) h = omega (arith, pow-suc 2 n, pow-suc 2 k, pow-lt k n (omega arith))

halve-clear_mask :
    (n k : ℕ)
    → k < n
    → (clear_mask (suc n) (suc k) / 2 ≡ clear_mask n k) × (clear_mask (suc n) (suc k) % 2 ≡ 1)
halve-clear_mask n k h = omega (arith, pow-suc 2 n, pow-suc 2 k, pow-lt k n h)

halve-clear_mask_zero :
    (n : ℕ) → (clear_mask (suc n) 0 / 2 ≡ 2 ^ n - 1) × (clear_mask (suc n) 0 % 2 ≡ 0)
halve-clear_mask_zero n = omega (arith, pow-suc 2 n, one-le-pow n 2)

-- `w & ~(1 << k)` clears bit k and no other, below the width n.
pub bit-clear :
    (w n k j : ℕ)
    → k < n
    → j < n
    → bit (bit_and w (clear_mask n k)) j ≡ (if j == k then false else bit w j)
bit-clear w zero k j hk hj = absurd (omega arith)
bit-clear w (suc n) zero zero hk hj =
    ground (arith, bit_and-parity w (clear_mask (suc n) 0), halve-clear_mask_zero n)
bit-clear w (suc n) zero (suc j) hk hj =
    rw (==-zero-suc j, bit_and-halve-half w (clear_mask (suc n) 0), (halve-clear_mask_zero n).0)
      (bit-ones (w / 2) n j (omega arith))
bit-clear w (suc n) (suc k) zero hk hj =
    ground
      (arith, bit_and-parity w (clear_mask (suc n) (suc k)), halve-clear_mask n k (omega arith))
bit-clear w (suc n) (suc k) (suc j) hk hj =
    rw
      (
        ← ==-suc j k,
        bit_and-halve-half w (clear_mask (suc n) (suc k)),
        (halve-clear_mask n k (omega arith)).0,
      )
      (bit-clear (w / 2) n k j (omega arith) (omega arith))

-- Neither operation leaves the word's width.
pub bit_or-lt : (n w v : ℕ) → w < 2 ^ n → v < 2 ^ n → bit_or w v < 2 ^ n
bit_or-lt zero w v hw hv = rw (w_zero, v_zero) (omega (arith, bit_or-zero 0 0))
  where
    w_zero : w ≡ 0
    w_zero = omega arith

    v_zero : v ≡ 0
    v_zero = omega arith
bit_or-lt (suc n) w v hw hv = omega (
  arith,
  pow-suc 2 n,
  bit_or-halve w v,
  bit_or-lt n (w / 2) (v / 2) (omega (arith, pow-suc 2 n)) (omega (arith, pow-suc 2 n)),
)

pub bit_and-le : (n w v : ℕ) → w ≤ n → bit_and w v ≤ w
bit_and-le n zero v h = omega (arith, bit_and-bitwise 0 v)
bit_and-le zero (suc w) v h = absurd (omega arith)
bit_and-le (suc n) (suc w) v h =
    omega (arith, bit_and-halve (suc w) v, bit_and-le n (suc w / 2) (v / 2) (omega arith))

-- `w & (1 << k)` tests bit k.
pub bit_and-eq_zero : (w k : ℕ) → (bit_and w (2 ^ k) == 0) ≡ (if bit w k then false else true)
bit_and-eq_zero w k = ground (arith, bit_and-bit w k, one-le-pow k 2)

differ_small : (x y : ℕ) → x < 2 → y < 2 → differ x y < 2
differ_small zero y hx hy = hy
differ_small (suc zero) zero hx hy = hx
differ_small (suc zero) (suc y) hx hy = omega arith
differ_small (suc (suc x)) y hx hy = absurd (omega arith)

differ-lt : (a b : ℕ) → differ (a % 2) (b % 2) < 2
differ-lt a b = differ_small (a % 2) (b % 2) (omega arith) (omega arith)

bit_xor-halve : (a b : ℕ) → bit_xor a b ≡ bit_xor (a / 2) (b / 2) * 2 + differ (a % 2) (b % 2)
bit_xor-halve zero b = omega (arith, bit_xor-bitwise 0 b, bit_xor-bitwise 0 (b / 2))
bit_xor-halve (suc a) b = omega (
  arith,
  bit_xor-bitwise (suc a) b,
  bit_xor-bitwise (suc a / 2) (b / 2),
  halve (λ t. t) differ a b,
)

pub bit_xor-lt : (n w v : ℕ) → w < 2 ^ n → v < 2 ^ n → bit_xor w v < 2 ^ n
bit_xor-lt zero w v hw hv = rw (w_zero, v_zero) (omega arith)
  where
    w_zero : w ≡ 0
    w_zero = omega arith

    v_zero : v ≡ 0
    v_zero = omega arith
bit_xor-lt (suc n) w v hw hv = omega (
  arith,
  pow-suc 2 n,
  bit_xor-halve w v,
  differ-lt w v,
  bit_xor-lt n (w / 2) (v / 2) (omega (arith, pow-suc 2 n)) (omega (arith, pow-suc 2 n)),
)

self_or : (n a : ℕ) → a ≤ n → bit_or a a ≡ a
self_or n zero h = omega (arith, bit_or-bitwise 0 0)
self_or zero (suc a) h = absurd (omega arith)
self_or (suc n) (suc a) h =
    omega (arith, bit_or-halve (suc a) (suc a), self_or n (suc a / 2) (omega arith))

pub bit_or_self : (a : ℕ) → bit_or a a ≡ a
bit_or_self a = self_or a a (omega arith)
