-- ===== src/BitMap/Init.antt =====
-- The constructor, over whatever the allocated words held.
use os_project2_nach_os.Base.{ℕ, zero, suc, ◌+◌, ◌<◌, ◌≡◌, refl, ap, ◌∙◌, false, length, ok, arith}
use os_project2_nach_os.Utility.{div_round_up}
use os_project2_nach_os.BitMap.{BitMap, uninitialised, clear_each, init}
use os_project2_nach_os.BitMap.Sets.{marked, FitsWords, IsValid, Sets, clear-Sets}

length-uninitialised : (garbage : ℕ → ℕ) (n : ℕ) → length (uninitialised garbage n) ≡ n
length-uninitialised garbage zero = refl
length-uninitialised garbage (suc n) = ap suc (length-uninitialised garbage n)

uninitialised-FitsWords : (garbage : ℕ → ℕ) (n : ℕ) → FitsWords (uninitialised garbage n)
uninitialised-FitsWords garbage zero = tt
uninitialised-FitsWords garbage (suc n) = (omega arith, uninitialised-FitsWords garbage n)

-- A valid map of n bits, the first k of them clear.
record Cleared (n k : ℕ) (b : BitMap) : Type 0 where
  valid : IsValid b
  sized : b.num_bits ≡ n
  low : (j : ℕ) → j < k → marked b j ≡ false

Cleared-step : {n i : ℕ} {b b' : BitMap} → Cleared n i b → Sets b i false b' → Cleared n (i + 1) b'
Cleared-step {n} {i} c st = record {
  valid = st.valid;
  sized = st.same_size ∙ c.sized;
  low = λ j h. ground (arith, st.bits j, c.low j);
}

clear_each-Cleared :
    (n rounds i : ℕ) (b : BitMap)
    → i + rounds ≡ n
    → Cleared n i b
    → (b' : BitMap) × (clear_each rounds i b ≡ ok b') × Cleared n n b'
unfolding clear_each
clear_each-Cleared n zero i b h c =
    (b, refl, record { valid = c.valid; sized = c.sized; low = λ j hj. c.low j (omega arith) })
clear_each-Cleared n (suc rounds) i b h c =
    let (b', e, st) = clear-Sets b i c.valid (omega (arith, c.sized)) in
    let (b'', e', c') = clear_each-Cleared n rounds (i + 1) b' (omega arith) (Cleared-step c st) in
    (b'', rw e e', c')

-- Whatever the memory held, the constructor ends without a fault, in a valid map of the asked
-- number of bits with every bit clear.
pub init_all_clear :
    (garbage : ℕ → ℕ) (n : ℕ)
    → (b : BitMap) × (init garbage n ≡ ok b)
      × IsValid b
      × (b.num_bits ≡ n)
      × ((j : ℕ) → j < n → marked b j ≡ false)
unfolding init
init_all_clear garbage n =
    let (b, e, c) = clear_each-Cleared n n 0 _ (omega arith) (record {
      valid = record {
        counted = refl;
        stored = length-uninitialised garbage (div_round_up n 32);
        fits = uninitialised-FitsWords garbage (div_round_up n 32);
      };
      sized = refl;
      low = λ j h. absurd (omega arith);
    }) in
    (b, e, c.valid, c.sized, c.low)
