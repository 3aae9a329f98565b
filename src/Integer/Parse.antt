-- ===== src/Integer/Parse.antt =====
-- What ReadInt of userprog/exception.cc makes of a line without a point.
use os_project2_nach_os.Base.{
  ℕ, suc, ◌+◌, ◌-◌, ◌<◌, ◌≡◌, refl, ap, ◌∙◌, false, ◌&&◌, List, [], ◌∷◌, ◌++◌, append_assoc, some,
  length, replicate, get_or, ◌==◌, arith,
}
use os_project2_nach_os.Console.Lines.{IsPlain, read-plain}
use os_project2_nach_os.Integer.{
  negate, below_zero_char, above_nine_char, check_line, parse_int, parsed, read_int,
}
use os_project2_nach_os.Integer.Digits.{value, At, At-start, At-after_first, convert-At}

-- No decimal point.
abbrev pub HasNoPoint : List ℕ → Type 0
HasNoPoint [] = Unit {0}
HasNoPoint (c ∷ cs) = ((c == 46) ≡ false) × HasNoPoint cs

-- No byte is below '0' and above '9', so the test of ReadInt refuses none.
never_refused : (c : ℕ) → (below_zero_char c && above_nine_char c) ≡ false
never_refused c = ground arith

check_line-accepts :
    (b : List ℕ) (i : ℕ) (cs : List ℕ)
    → At b i cs
    → HasNoPoint cs
    → check_line (length cs) i i b ≡ some (i + length cs)
unfolding check_line
check_line-accepts b i [] at no_point = ap some (omega arith)
check_line-accepts b i (c ∷ cs) at no_point =
    let not_point : (get_or b i 0 == 46) ≡ false = ap (λ x. x == 46) at.0 ∙ no_point.0 in
    rw (not_point, never_refused (get_or b i 0))
      (check_line-accepts b (i + 1) cs at.1 no_point.1 ∙ ap some (omega arith))

-- The start value of lastIndex does not matter if there is a byte.
check_line-first :
    (b : List ℕ) (i stop c : ℕ) (cs : List ℕ)
    → At b i (c ∷ cs)
    → HasNoPoint (c ∷ cs)
    → check_line (length (c ∷ cs)) i stop b ≡ some (i + length (c ∷ cs))
unfolding check_line
check_line-first b i stop c cs at no_point =
    let not_point : (get_or b i 0 == 46) ≡ false = ap (λ x. x == 46) at.0 ∙ no_point.0 in
    rw (not_point, never_refused (get_or b i 0))
      (check_line-accepts b (i + 1) cs at.1 no_point.1 ∙ ap some (omega arith))

parse_int-positive :
    (cs : List ℕ) (c : ℕ) (r : List ℕ)
    → HasNoPoint (c ∷ cs)
    → (c == 45) ≡ false
    → parse_int (length (c ∷ cs)) ((c ∷ cs) ++ r) ≡ value 0 (c ∷ cs)
unfolding parse_int
parse_int-positive cs c r no_point unsigned =
    let at = At-start (c ∷ cs) r in
    let checked : check_line (length (c ∷ cs)) 0 1 ((c ∷ cs) ++ r) ≡ some (length (c ∷ cs)) =
      check_line-first ((c ∷ cs) ++ r) 0 1 c cs at no_point ∙ ap some (omega arith) in
    rw (unsigned, checked) (convert-At ((c ∷ cs) ++ r) 0 0 (c ∷ cs) at)

parse_int-negative :
    (cs : List ℕ) (c : ℕ) (r : List ℕ)
    → HasNoPoint (c ∷ cs)
    → parse_int (suc (length (c ∷ cs))) (45 ∷ ((c ∷ cs) ++ r)) ≡ negate (value 0 (c ∷ cs))
unfolding parse_int
parse_int-negative cs c r no_point =
    let b = 45 ∷ ((c ∷ cs) ++ r) in
    let at = At-after_first 45 (c ∷ cs) r in
    let checked : check_line (length (c ∷ cs)) 1 2 b ≡ some (1 + length (c ∷ cs)) =
      check_line-first b 1 2 c cs at no_point in
    let n : suc (length (c ∷ cs)) - 1 ≡ length (c ∷ cs) = omega arith in
    let m : (1 + length (c ∷ cs)) - 1 ≡ length (c ∷ cs) = omega arith in
    rw (n, checked, m) (ap negate (convert-At b 1 0 (c ∷ cs) at))

-- A plain line with at least one byte, fewer than 255, no point and no '-' at its start is never
-- refused, whatever its bytes are: ReadInt returns the number that they make up with c - '0' as
-- the digit of the byte c, in 32 bits.
pub read_int-value :
    (last c : ℕ) (cs rest : List ℕ)
    → length (c ∷ cs) < 255
    → IsPlain (c ∷ cs)
    → HasNoPoint (c ∷ cs)
    → (c == 45) ≡ false
    → read_int last ((c ∷ cs) ++ (10 ∷ rest)) ≡ some (value 0 (c ∷ cs), rest)
unfolding read_int
read_int-value last c cs rest short plain no_point unsigned =
    let z = replicate (255 - length (c ∷ cs)) 0 in
    ap (parsed last) (read-plain 255 (c ∷ cs) rest short plain)
    ∙ (ap (λ t. some (t, rest))
        (ap (parse_int (length (c ∷ cs))) (append_assoc (c ∷ cs) z (last ∷ []))
          ∙ parse_int-positive cs c (z ++ (last ∷ [])) no_point unsigned))

-- The same after a '-'.
pub read_int-minus :
    (last c : ℕ) (cs rest : List ℕ)
    → length (c ∷ cs) < 254
    → IsPlain (c ∷ cs)
    → HasNoPoint (c ∷ cs)
    → read_int last ((45 ∷ c ∷ cs) ++ (10 ∷ rest)) ≡ some (negate (value 0 (c ∷ cs)), rest)
unfolding read_int
read_int-minus last c cs rest short plain no_point =
    let z = replicate (255 - length (45 ∷ c ∷ cs)) 0 in
    ap (parsed last) (read-plain 255 (45 ∷ c ∷ cs) rest (omega arith) (refl, refl, refl, plain))
    ∙ (ap (λ t. some (t, rest))
        (ap (parse_int (length (45 ∷ c ∷ cs))) (append_assoc (45 ∷ c ∷ cs) z (last ∷ []))
          ∙ parse_int-negative cs c (z ++ (last ∷ [])) no_point))
