-- ===== src/Utility.antt =====
-- nachos/nachos-3.4/code/threads/utility.h: the rounding macros.
use os_project2_nach_os.Base.{ℕ, ◌+◌, ◌/◌, ◌%◌, ◌<◌, ltb, if◌then◌else◌, arith}

unfoldable pub div_round_down : ℕ → ℕ → ℕ
div_round_down n s = n / s

unfoldable pub div_round_up : ℕ → ℕ → ℕ
div_round_up n s = n / s + (if ltb 0 (n % s) then 1 else 0)

-- An item below n lies in one of the chunks of 32 that cover n.
pub div-lt-div_round_up : (i n : ℕ) → i < n → i / 32 < div_round_up n 32
unfolding div_round_up
div-lt-div_round_up i n h = ground arith
