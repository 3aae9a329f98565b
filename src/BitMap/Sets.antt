-- ===== src/BitMap/Sets.antt =====
-- The bitmap as a function from bit numbers to Booleans, and what one access does to it.
use os_project2_nach_os.Base.{
  ℕ, zero, suc, ◌/◌, ◌%◌, ◌^◌, ◌<◌, bit_and, bit_or, ◌≡◌, refl, ◌∙◌, Bool, true, false, List, [],
  ◌∷◌, ok, get_or, get_elem?-eq-get_or, set, length, length-set, lt→ltb, ◌==◌, if◌then◌else◌, arith,
}
use os_project2_nach_os.Base.Bits.{
  bit, bit-bit_or, bit-clear, bit_or-lt, bit_and-le, bit_and-eq_zero, clear_mask, pow-lt,
}
use os_project2_nach_os.Utility.{div_round_up, div-lt-div_round_up}
use os_project2_nach_os.BitMap.{BitMap, mark, clear, test, with_word}

-- Bit i, read from its word.
abbrev pub marked : BitMap → ℕ → Bool
marked b i = bit (get_or b.map (i / 32) 0) (i % 32)

abbrev pub FitsWords : List ℕ → Type 0
FitsWords [] = Unit {0}
FitsWords (w ∷ ws) = (w < 2 ^ 32) × FitsWords ws

pub record IsValid (b : BitMap) : Type 0 where
  pub counted : b.num_words ≡ div_round_up b.num_bits 32
  pub stored : length b.map ≡ b.num_words
  pub fits : FitsWords b.map

-- `b'` is `b` with bit i set to v and all else as it was.
pub record Sets (b : BitMap) (i : ℕ) (v : Bool) (b' : BitMap) : Type 0 where
  pub valid : IsValid b'
  pub same_size : b'.num_bits ≡ b.num_bits
  pub bits : (j : ℕ) → marked b' j ≡ (if j == i then v else marked b j)

FitsWords-set : (ws : List ℕ) (i w : ℕ) → FitsWords ws → w < 2 ^ 32 → FitsWords (set ws i w)
FitsWords-set [] i w f h = tt
FitsWords-set (v ∷ ws) zero w f h = (h, f.1)
FitsWords-set (v ∷ ws) (suc i) w f h = (f.0, FitsWords-set ws i w f.1 h)

get_or-set :
    (ws : List ℕ) (i j w : ℕ)
    → i < length ws
    → get_or (set ws i w) j 0 ≡ (if j == i then w else get_or ws j 0)
get_or-set [] i j w h = absurd (omega arith)
get_or-set (v ∷ ws) zero zero w h = refl
get_or-set (v ∷ ws) zero (suc j) w h = ground arith
get_or-set (v ∷ ws) (suc i) zero w h = ground arith
get_or-set (v ∷ ws) (suc i) (suc j) w h = ground (arith, get_or-set ws i j w)

get_or-fits : (ws : List ℕ) (i : ℕ) → FitsWords ws → get_or ws i 0 < 2 ^ 32
get_or-fits [] i f = omega arith
get_or-fits (w ∷ ws) zero f = f.0
get_or-fits (w ∷ ws) (suc i) f = get_or-fits ws i f.1

module _ (b : BitMap) (i : ℕ) (v : IsValid b) (h : i < b.num_bits) where
  in_map : i / 32 < length b.map
  in_map = omega (arith, div-lt-div_round_up i b.num_bits h, v.counted, v.stored)

  word : ℕ
  word = get_or b.map (i / 32) 0

  -- A word that differs in one bit changes one bit of the map.
  with_word-Sets :
      (w : ℕ) (x : Bool)
      → w < 2 ^ 32
      → ((k : ℕ) → k < 32 → bit w k ≡ (if k == i % 32 then x else bit (get_or b.map (i / 32) 0) k))
      → Sets b i x (with_word b i w)
  with_word-Sets w x fit same = record {
    valid = record {
      counted = v.counted;
      stored = length-set b.map (i / 32) w ∙ v.stored;
      fits = FitsWords-set b.map (i / 32) w v.fits fit;
    };
    same_size = refl;
    bits = λ j.
        ground (arith, get_or-set b.map (i / 32) (j / 32) w in_map, same (j % 32) (omega arith));
  }

  -- `test` reads the bit.
  pub test-marked : test b i ≡ ok (marked b i)
  unfolding test
  test-marked =
      rw (lt→ltb _ _ h, get_elem?-eq-get_or b.map (i / 32) 0 in_map)
        (ground (arith, bit_and-eq_zero (get_or b.map (i / 32) 0) (i % 32)))

  -- On a valid map, `mark` of a bit in range ends without a fault. The map stays valid and of its
  -- size, that bit is set, and every other bit is as it was.
  pub mark-Sets : (b' : BitMap) × (mark b i ≡ ok b') × Sets b i true b'
  unfolding mark word
  mark-Sets = (
    with_word b i (bit_or word (2 ^ (i % 32))),
    rw (lt→ltb _ _ h, get_elem?-eq-get_or b.map (i / 32) 0 in_map),
    with_word-Sets _ true
        (bit_or-lt 32 word (2 ^ (i % 32)) (get_or-fits b.map (i / 32) v.fits)
          (pow-lt (i % 32) 32 (omega arith)))
        (λ k hk. ground (arith, bit-bit_or word (i % 32) k)),
  )

  -- On a valid map, `clear` of a bit in range ends without a fault. The map stays valid and of its
  -- size, that bit is clear, and every other bit is as it was.
  pub clear-Sets : (b' : BitMap) × (clear b i ≡ ok b') × Sets b i false b'
  unfolding clear word
  clear-Sets = (
    with_word b i (bit_and word (clear_mask 32 (i % 32))),
    rw (lt→ltb _ _ h, get_elem?-eq-get_or b.map (i / 32) 0 in_map),
    with_word-Sets _ false
        (omega
          (arith, bit_and-le word word (clear_mask 32 (i % 32)), get_or-fits b.map (i / 32) v.fits))
        (λ k hk. bit-clear word 32 (i % 32) k (omega arith) hk),
  )
