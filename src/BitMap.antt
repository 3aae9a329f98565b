-- ===== src/BitMap.antt =====
-- nachos/nachos-3.4/code/userprog/bitmap.h and bitmap.cc: an array of bits in 32-bit words.
-- An `int` argument that is never negative is a ℕ; the slot -1 is `none`. ASSERT is the error
-- `assertion_failed`, and a read past `map` is `wild_access`.
pub mod Sets
pub mod Search
pub mod Init
mod Examples
use os_project2_nach_os.Base.{
  ℕ, zero, suc, ◌+◌, ◌/◌, ◌%◌, ◌^◌, bit_and, bit_or, Bool, true, false, List, [], ◌∷◌, Option, none,
  some, Result, ok, err, assertion_failed, ◌>>=◌, ◌>>◌, or_wild, get_elem?, set, ltb, ◌==◌,
  if◌then◌else◌,
}
use os_project2_nach_os.Base.Bits.{clear_mask}
use os_project2_nach_os.Utility.{div_round_up}

abbrev pub bits_in_word : ℕ
bits_in_word = 32

pub record BitMap : Type 0 where
  pub num_bits : ℕ
  pub num_words : ℕ
  pub map : List ℕ

-- ASSERT(which < numBits)
abbrev pub check : BitMap → ℕ → Result (Unit {0})
check b which = if ltb which b.num_bits then ok tt else err assertion_failed

-- map[which / BitsInWord]
abbrev pub word_of : BitMap → ℕ → Result ℕ
word_of b which = or_wild (get_elem? b.map (which / bits_in_word))

abbrev pub with_word : BitMap → ℕ → ℕ → BitMap
with_word b which w = record b { map = set b.map (which / bits_in_word) w }

unfoldable pub mark : BitMap → ℕ → Result BitMap
mark b which = do
  check b which
  w ← word_of b which
  ok (with_word b which (bit_or w (2 ^ (which % bits_in_word))))

unfoldable pub clear : BitMap → ℕ → Result BitMap
clear b which = do
  check b which
  w ← word_of b which
  ok (with_word b which (bit_and w (clear_mask bits_in_word (which % bits_in_word))))

unfoldable pub test : BitMap → ℕ → Result Bool
test b which = do
  check b which
  w ← word_of b which
  ok (if bit_and w (2 ^ (which % bits_in_word)) == 0 then false else true)

-- What `new unsigned int[numWords]` finds in memory.
abbrev pub uninitialised : (ℕ → ℕ) → ℕ → List ℕ
uninitialised garbage zero = []
uninitialised garbage (suc n) = (garbage n % 2 ^ 32) ∷ uninitialised garbage n

-- for (i = first; rounds are left; i++) Clear(i);
unfoldable pub clear_each : ℕ → ℕ → BitMap → Result BitMap
clear_each zero i b = ok b
clear_each (suc rounds) i b = do b' ← clear b i; clear_each rounds (i + 1) b'

unfoldable pub init : (ℕ → ℕ) → ℕ → Result BitMap
init garbage nitems = clear_each nitems 0 (record {
  num_bits = nitems;
  num_words = div_round_up nitems bits_in_word;
  map = uninitialised garbage (div_round_up nitems bits_in_word);
})

unfoldable pub find_from : ℕ → ℕ → BitMap → Result (Option ℕ × BitMap)
find_from zero i b = ok (none, b)
find_from (suc rounds) i b =
    let rest = find_from rounds (i + 1) b in
    let found = mark b i >>= λ b'. ok (some i, b') in
    test b i >>= λ used. if used then rest else found

unfoldable pub find_free_slot : BitMap → Result (Option ℕ × BitMap)
unfolding find_from
find_free_slot b = find_from b.num_bits 0 b

unfoldable pub count_from : ℕ → ℕ → ℕ → BitMap → Result ℕ
count_from zero i count b = ok count
count_from (suc rounds) i count b = do
  used ← test b i
  count_from rounds (i + 1) (if used then count else count + 1) b

unfoldable pub num_clear : BitMap → Result ℕ
unfolding count_from
num_clear b = count_from b.num_bits 0 0 b
