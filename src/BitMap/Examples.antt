-- ===== src/BitMap/Examples.antt =====
-- The bitmap at concrete inputs.
use os_project2_nach_os.Base.{
  ℕ, ◌≡◌, refl, true, [], ◌∷◌, Option, some, ok, err, assertion_failed, arith,
}
use os_project2_nach_os.Utility.{div_round_up}
use os_project2_nach_os.BitMap.{BitMap, mark, clear, test, find_free_slot, num_clear}
use os_project2_nach_os.BitMap.Sets.{IsValid, test-marked}
use os_project2_nach_os.BitMap.Search.{
  FreeSlot, find_free_slot-FreeSlot, clear_bits, num_clear-clear_bits,
}

-- Forty bits in two words: 0, 2 and 33 are set.
abbrev forty : BitMap
forty = record { num_bits = 40; num_words = 2; map = 5 ∷ 2 ∷ [] }

forty-IsValid : IsValid forty
unfolding div_round_up
forty-IsValid = record { counted = refl; stored = refl; fits = omega arith }

mark-forty : mark forty 34 ≡ ok (record forty { map = 5 ∷ 6 ∷ [] })
unfolding mark
mark-forty = refl

clear-forty : clear forty 2 ≡ ok (record forty { map = 1 ∷ 2 ∷ [] })
unfolding clear
clear-forty = refl

test_out_of_range : test forty 40 ≡ err assertion_failed
unfolding test
test_out_of_range = refl

find_forty : find_free_slot forty ≡ ok (some 1, record forty { map = 7 ∷ 2 ∷ [] })
unfolding find_free_slot test mark
find_forty = refl

num_clear-forty : num_clear forty ≡ ok 37
unfolding num_clear test
num_clear-forty = refl

test-marked_example : test forty 33 ≡ ok true
test-marked_example = test-marked forty 33 forty-IsValid (omega arith)

find_free_slot-FreeSlot_example :
    (r : Option ℕ × BitMap) × (find_free_slot forty ≡ ok r) × FreeSlot forty 0 r
find_free_slot-FreeSlot_example = find_free_slot-FreeSlot forty forty-IsValid

num_clear-clear_bits_example : num_clear forty ≡ ok (clear_bits forty)
num_clear-clear_bits_example = num_clear-clear_bits forty forty-IsValid
