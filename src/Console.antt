-- ===== src/Console.antt =====
-- nachos/nachos-3.4/code/threads/synchcons.cc: the console that system calls read lines from and
-- write bytes to. What the keyboard will give is a list of bytes; a Read that needs more of them
-- waits, which is `none`. The semaphores that serialise lines and wait for the device are left out.
mod Examples
pub mod Lines
use os_project2_nach_os.Base.{
  ℕ, zero, suc, ◌-◌, Bool, true, false, ◌||◌, List, [], ◌∷◌, ◌++◌, Option, none, some, length, take,
  replicate, ◌==◌, if◌then◌else◌,
}

-- How the loop of Read ends: a byte that ends the line, or a buffer that is full.
pub data LineEnd : Type 0 where
  newline control_a buffer_full : LineEnd

pub record Line : Type 0 where
  pub bytes : List ℕ
  pub ended : LineEnd
  pub unread : List ℕ

abbrev pub put_byte : ℕ → Option Line → Option Line
put_byte c none = none
put_byte c (some l) = some (record l { bytes = c ∷ l.bytes })

-- The loop of Read with room for so many bytes. The byte 255 is EOF in a char.
unfoldable pub read_bytes : ℕ → List ℕ → Option Line
read_bytes zero input = some (record { bytes = []; ended = buffer_full; unread = input })
read_bytes (suc room) [] = none
read_bytes (suc room) (c ∷ input) =
    let again = read_bytes (suc room) input in
    let more = put_byte c (read_bytes room input) in
    if c == 255
    then again
    else if c == 10
    then some (record { bytes = []; ended = newline; unread = input })
    else if c == 1
    then some (record { bytes = []; ended = control_a; unread = input })
    else more

-- What Read has put in the buffer, what it returns, with -1 as `none`, and what it leaves.
pub record ReadResult : Type 0 where
  pub into : List ℕ
  pub returned : Option ℕ
  pub unread : List ℕ

abbrev pub returned_by : Line → Option ℕ
returned_by l = elim l.ended [
  | newline ↦ some (length l.bytes)
  | control_a ↦ none
  | buffer_full ↦ some (length l.bytes)
]

abbrev pub finished : ℕ → Option Line → Option ReadResult
finished num_bytes none = none
finished num_bytes (some l) = some (record {
  into = l.bytes ++ replicate (num_bytes - length l.bytes) 0;
  returned = returned_by l;
  unread = l.unread;
})

-- SynchConsole::Read
unfoldable pub read : ℕ → List ℕ → Option ReadResult
unfolding read_bytes
read num_bytes input = finished num_bytes (read_bytes num_bytes input)

-- SynchConsole::Write, as the bytes that go out: the first so many of the buffer.
abbrev pub write : List ℕ → ℕ → List ℕ
write from num_bytes = take num_bytes from
