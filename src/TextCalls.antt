-- ===== src/TextCalls.antt =====
-- nachos/nachos-3.4/code/userprog/exception.cc: the system calls on characters and strings, over the
-- console and user memory. Registers 4 and 5 are arguments. A call that waits for the keyboard is
-- none; an int is its 32-bit pattern, a char a byte, and a length is not negative.
pub mod Echo
mod Examples
use os_project2_nach_os.Base.{
  ℕ, ◌+◌, ◌-◌, ◌%◌, ◌^◌, List, [], ◌∷◌, ◌++◌, Option, none, some, Result, ok, err, wild_access,
  machine_halted, ◌>>=◌, or_wild, get_elem?, length, ltb, ◌==◌, if◌then◌else◌,
}
use os_project2_nach_os.Console.{ReadResult, read as read_line, write as put}
use os_project2_nach_os.UserMemory.{string_at, user2system}
use os_project2_nach_os.FileCalls.{CallState, returns, deliver, finishes}

-- A char as an int.
abbrev pub from_char : ℕ → ℕ
from_char c = if ltb c 128 then c else 2 ^ 32 - 256 + c

-- ReadChar, once the line is read: -1 is neither 0 nor more than 1.
unfoldable pub take_char : ReadResult → CallState → Result CallState
take_char l k =
    let char = or_wild (get_elem? l.into 0) >>= λ c.
    ok (returns (from_char c) (record k { input = l.unread })) in
    elim l.returned [
      | none ↦ char
      | some n ↦ if ltb 1 n then err machine_halted else if n == 0 then err machine_halted else char
    ]

unfoldable pub handle_read_char : CallState → Result (Option CallState)
unfolding take_char
handle_read_char k = elim (read_line 255 k.input) [
  | none ↦ ok none
  | some l ↦ finishes (take_char l k)
]

unfoldable pub handle_print_char : ℕ → CallState → CallState
handle_print_char r4 k = record k { output = k.output ++ put ((r4 % 256) ∷ []) 1 }

-- Read fills all of the buffer that System2User reads, so what User2System put there is gone.
unfoldable pub handle_read_string : ℕ → ℕ → CallState → Result (Option CallState)
handle_read_string r4 r5 k = elim (read_line r5 k.input) [
  | none ↦ ok none
  | some l ↦ finishes (deliver r4 r5 l.into (record k { input = l.unread }))
]

abbrev pub print_limit : ℕ
print_limit = 255

-- The count stops at the first 0, which Write puts out too.
unfoldable pub handle_print_string : ℕ → CallState → CallState
handle_print_string r4 k = record k {
  output =
      k.output
      ++ put (user2system k.user r4 print_limit) (length (string_at k.user r4 print_limit) + 1);
}
