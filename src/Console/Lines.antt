-- ===== src/Console/Lines.antt =====
-- A line without a byte that Read of threads/synchcons.cc treats specially.
use os_project2_nach_os.Base.{
  ℕ, zero, suc, ◌-◌, ◌<◌, ◌≡◌, refl, ap, false, List, [], ◌∷◌, ◌++◌, some, length, replicate, ◌==◌,
  arith,
}
use os_project2_nach_os.Console.{newline, read_bytes, finished, read}

-- No EOF, no end of line and no CTRL-A.
abbrev pub IsPlain : List ℕ → Type 0
IsPlain [] = Unit {0}
IsPlain (c ∷ cs) = ((c == 255) ≡ false) × ((c == 10) ≡ false) × ((c == 1) ≡ false) × IsPlain cs

read_bytes-plain :
    (room : ℕ) (cs rest : List ℕ)
    → length cs < room
    → IsPlain cs
    → read_bytes room (cs ++ (10 ∷ rest))
      ≡ some (record { bytes = cs; ended = newline; unread = rest })
unfolding read_bytes
read_bytes-plain zero cs rest h plain = elim h [ ]
read_bytes-plain (suc room) [] rest h plain = refl
read_bytes-plain (suc room) (c ∷ cs) rest h (not_eof, not_end, not_a, plain) =
    rw (not_eof, not_end, not_a, read_bytes-plain room cs rest (omega arith) plain)

-- A plain line that is shorter than the buffer, with the newline behind it, fills the buffer with
-- itself and zeros, and Read returns its length.
pub read-plain :
    (room : ℕ) (cs rest : List ℕ)
    → length cs < room
    → IsPlain cs
    → read room (cs ++ (10 ∷ rest))
      ≡ some (record {
        into = cs ++ replicate (room - length cs) 0;
        returned = some (length cs);
        unread = rest;
      })
unfolding read
read-plain room cs rest h plain = ap (finished room) (read_bytes-plain room cs rest h plain)
