-- ===== src/Integer.antt =====
-- nachos/nachos-3.4/code/userprog/exception.cc: handle_SC_ReadInt and handle_SC_PrintInt, which turn
-- a line of the console into an int and back. An int is its 32-bit pattern, and its overflow wraps.
-- A char is a byte, with the sign of a signed char where the code computes with it. The 256 bytes
-- of a buffer are given as `new` finds them; no index of these routines leaves them.
pub mod Digits
pub mod Print
pub mod Parse
pub mod RoundTrip
mod Examples
use os_project2_nach_os.Base.{
  ℕ, zero, suc, ◌+◌, ◌-◌, ◌*◌, ◌/◌, ◌%◌, ◌^◌, Bool, true, false, ◌&&◌, not, List, [], ◌∷◌, ◌++◌,
  Option, none, some, Result, ok, err, out_of_rounds, ◌>>=◌, get_or, set, ltb, ◌==◌, if◌then◌else◌,
}
use os_project2_nach_os.Console.{ReadResult, read, write}

abbrev pub max_buffer : ℕ
max_buffer = 255

abbrev pub is_negative : ℕ → Bool
is_negative w = not (ltb w (2 ^ 31))

-- number * -1
abbrev pub negate : ℕ → ℕ
negate w = (2 ^ 32 - w) % 2 ^ 32

-- An int divided by 10, which rounds towards 0, and the remainder, with the sign of the int.
abbrev pub div_ten : ℕ → ℕ
div_ten w = if is_negative w then negate (negate w / 10) else w / 10

abbrev pub rem_ten : ℕ → ℕ
rem_ten w = if is_negative w then negate (negate w % 10) else w % 10

-- while (tmp) { numLength++; tmp /= 10; }
unfoldable pub num_length : ℕ → ℕ → ℕ → Result ℕ
num_length zero tmp count = err out_of_rounds
num_length (suc rounds) tmp count =
    let more = num_length rounds (div_ten tmp) (count + 1) in if tmp == 0 then ok count else more

-- The loop that stores the digits, from index first + rounds - 1 down to first.
unfoldable pub put_digits : ℕ → ℕ → ℕ → List ℕ → List ℕ
put_digits zero first number buffer = buffer
put_digits (suc rounds) first number buffer =
    put_digits rounds first (div_ten number)
      (set buffer (first + rounds) ((rem_ten number + 48) % 256))

-- The bytes that PrintInt writes, for the int in register 4.
unfoldable pub print_int : List ℕ → ℕ → Result (List ℕ)
print_int garbage number =
    if number == 0
    then ok (write (48 ∷ []) 1)
    else if is_negative number
    then (num_length 12 (negate number) 0 >>= λ n.
        ok (write (set (set (put_digits n 1 (negate number) garbage) 0 45) (n + 1) 0) (n + 1)))
    else (num_length 12 number 0 >>= λ n. ok (write (set (put_digits n 0 number garbage) n 0) n))

-- Are the bytes of the buffer from index i on, rounds of them, all '0'?
unfoldable pub only_zeros : ℕ → ℕ → List ℕ → Bool
only_zeros zero i buffer = true
only_zeros (suc rounds) i buffer =
    let later = only_zeros rounds (i + 1) buffer in if get_or buffer i 0 == 48 then later else false

-- A char compares as a signed char: below '0' are also the bytes from 128 on.
abbrev pub below_zero_char : ℕ → Bool
below_zero_char c = if ltb c 128 then ltb c 48 else true

abbrev pub above_nine_char : ℕ → Bool
above_nine_char c = if ltb c 128 then ltb 57 c else false

-- The check of ReadInt: lastIndex + 1, or `none` for a line that is not valid.
unfoldable pub check_line : ℕ → ℕ → ℕ → List ℕ → Option ℕ
unfolding only_zeros
check_line zero i stop buffer = some stop
check_line (suc rounds) i stop buffer =
    let later = check_line rounds (i + 1) (i + 1) buffer in
    if get_or buffer i 0 == 46
    then (if only_zeros rounds (i + 1) buffer then some i else none)
    else if below_zero_char (get_or buffer i 0) && above_nine_char (get_or buffer i 0)
    then none
    else later

-- (int)(c - 48)
abbrev pub digit_of : ℕ → ℕ
digit_of c = if ltb c 128 then (c + 2 ^ 32 - 48) % 2 ^ 32 else c + 2 ^ 32 - 256 - 48

-- for (i = ...; rounds are left; i++) number = number * 10 + (int)(buffer[i] - 48);
unfoldable pub convert : ℕ → ℕ → ℕ → List ℕ → ℕ
convert zero i number buffer = number
convert (suc rounds) i number buffer =
    convert rounds (i + 1) ((number * 10 + digit_of (get_or buffer i 0)) % 2 ^ 32) buffer

-- The int of the first numbytes bytes of the buffer; a line that is not valid gives 0.
unfoldable pub parse_int : ℕ → List ℕ → ℕ
parse_int num_bytes buffer =
    if get_or buffer 0 0 == 45
    then elim (check_line (num_bytes - 1) 1 2 buffer) [
      | none ↦ 0
      | some stop ↦ negate (convert (stop - 1) 1 0 buffer)
    ]
    else elim (check_line num_bytes 0 1 buffer) [ none ↦ 0 | some stop ↦ convert stop 0 0 buffer ]

abbrev pub count_of : Option ℕ → ℕ
count_of none = 0
count_of (some n) = n

-- What follows the Read; the buffer's last byte is `last`.
abbrev pub parsed : ℕ → Option ReadResult → Option (ℕ × List ℕ)
parsed last none = none
parsed last (some r) = some (parse_int (count_of r.returned) (r.into ++ (last ∷ [])), r.unread)

-- What ReadInt puts in register 2, and the input that it leaves.
unfoldable pub read_int : ℕ → List ℕ → Option (ℕ × List ℕ)
read_int last input = parsed last (read max_buffer input)
