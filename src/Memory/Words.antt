-- ===== src/Memory/Words.antt =====
-- Little-endian words: the bytes of a number, lowest first, and the number they stand for.
use os_project2_nach_os.Base.{
  ℕ, zero, suc, ◌+◌, ◌*◌, ◌/◌, ◌%◌, ◌≡◌, refl, ap, List, [], ◌∷◌, length, arith,
}

abbrev pub le_bytes : ℕ → ℕ → List ℕ
le_bytes zero v = []
le_bytes (suc n) v = v % 256 ∷ le_bytes n (v / 256)

abbrev pub le_value : List ℕ → ℕ
le_value [] = 0
le_value (b ∷ bs) = b + 256 * le_value bs

pub length-le_bytes : (n v : ℕ) → length (le_bytes n v) ≡ n
length-le_bytes zero v = refl
length-le_bytes (suc n) v = ap suc (length-le_bytes n (v / 256))

-- The bytes of a number stand for its lowest part.
pub le_value-le_bytes_one : (v : ℕ) → le_value (le_bytes 1 v) ≡ v % 256
le_value-le_bytes_one v = omega arith

pub le_value-le_bytes_two : (v : ℕ) → le_value (le_bytes 2 v) ≡ v % 65536
le_value-le_bytes_two v = omega arith

pub le_value-le_bytes_four : (v : ℕ) → le_value (le_bytes 4 v) ≡ v % 4294967296
le_value-le_bytes_four v = omega arith
