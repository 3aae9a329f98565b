-- ===== src/Base/CString.antt =====
-- C strings as the bytes before the terminating 0, and what the kernel uses of <string.h>.
-- A buffer is the list of its bytes; a string that has ended reads as 0.
use Prim.Native.Nat.{ℕ, zero, suc}
use mathlib.Core.Path.{◌≡◌, refl}
use mathlib.Core.Bool.{Bool, true, ◌&&◌, ◌||◌}
use mathlib.Core.List.{List, [], ◌∷◌}
use native.Mathlib.Omega.{arith}
use os_project2_nach_os.Base.Tests.{◌==◌, if◌then◌else◌, Bool-cases}
use mathlib.Core.Logic.{inl, inr}

abbrev pub char_at : List ℕ → ℕ
char_at [] = 0
char_at (c ∷ cs) = c

abbrev pub rest : List ℕ → List ℕ
rest [] = []
rest (c ∷ cs) = cs

-- !strncmp(a, b, n)
unfoldable pub strncmp_eq : List ℕ → List ℕ → ℕ → Bool
strncmp_eq a b zero = true
strncmp_eq a b (suc n) =
    let later = strncmp_eq (rest a) (rest b) n in
    (char_at a == char_at b) && (char_at a == 0 || later)

-- The buffer dst after strncpy(dst, src, n): a short source is padded with 0.
unfoldable pub strncpy : List ℕ → List ℕ → ℕ → List ℕ
strncpy dst src zero = dst
strncpy dst src (suc n) =
    char_at src ∷ strncpy (rest dst) (if char_at src == 0 then [] else rest src) n

pub strncmp_eq_refl : (n : ℕ) (a : List ℕ) → strncmp_eq a a n ≡ true
unfolding strncmp_eq
strncmp_eq_refl zero a = refl
strncmp_eq_refl (suc n) a = ground (arith, strncmp_eq_refl n (rest a))

pub strncmp_eq-sym : (n : ℕ) (a b : List ℕ) → strncmp_eq a b n ≡ true → strncmp_eq b a n ≡ true
unfolding strncmp_eq
strncmp_eq-sym zero a b h = refl
strncmp_eq-sym (suc n) a b h = ground (arith, strncmp_eq-sym n (rest a) (rest b))

pub strncmp_eq_trans :
    (n : ℕ) (a b c : List ℕ)
    → strncmp_eq a b n ≡ true
    → strncmp_eq b c n ≡ true
    → strncmp_eq a c n ≡ true
unfolding strncmp_eq
strncmp_eq_trans zero a b c h k = refl
strncmp_eq_trans (suc n) a b c h k = ground (arith, strncmp_eq_trans n (rest a) (rest b) (rest c))

-- A copy of n bytes compares over n bytes as its source does.
pub strncmp_eq-strncpy :
    (n : ℕ) (dst src b : List ℕ) → strncmp_eq (strncpy dst src n) b n ≡ strncmp_eq src b n
unfolding strncmp_eq strncpy
strncmp_eq-strncpy zero dst src b = refl
strncmp_eq-strncpy (suc n) dst src b = elim (Bool-cases (char_at src == 0)) [
  | inl e ↦ ground arith
  | inr e ↦ ground (arith, strncmp_eq-strncpy n (rest dst) (rest src) (rest b))
]
