-- ===== src/Integer/RoundTrip.antt =====
-- ReadInt of userprog/exception.cc after PrintInt.
use os_project2_nach_os.Base.{
  ℕ, zero, suc, ◌+◌, ◌/◌, ◌%◌, ◌^◌, ◌≤◌, ◌<◌, ◌≡◌, ◌≢◌, ap, ◌∙◌, List, [], ◌∷◌, ◌++◌, some, ok,
  length, ltb, Bool-cases, inl, inr, arith,
}
use os_project2_nach_os.Console.Lines.{IsPlain}
use os_project2_nach_os.Integer.{negate, print_int, read_int}
use os_project2_nach_os.Integer.Digits.{digits, value, value-digits, length-digits}
use os_project2_nach_os.Integer.Print.{print_int-positive, print_int-negative}
use os_project2_nach_os.Integer.Parse.{HasNoPoint, read_int-value, read_int-minus}

abbrev IsDigits : List ℕ → Type 0
IsDigits [] = Unit {0}
IsDigits (c ∷ cs) = (48 ≤ c) × (c ≤ 57) × IsDigits cs

IsDigits-append : (cs : List ℕ) (d : ℕ) → IsDigits cs → 48 ≤ d → d ≤ 57 → IsDigits (cs ++ (d ∷ []))
IsDigits-append [] d h low high = (low, high, tt)
IsDigits-append (c ∷ cs) d (a, b, h) low high = (a, b, IsDigits-append cs d h low high)

digits-IsDigits : (k n : ℕ) → IsDigits (digits k n)
digits-IsDigits zero n = tt
digits-IsDigits (suc k) n =
    IsDigits-append (digits k (n / 10)) (n % 10 + 48) (digits-IsDigits k (n / 10)) (omega arith)
      (omega arith)

IsDigits-IsPlain : (cs : List ℕ) → IsDigits cs → IsPlain cs
IsDigits-IsPlain [] h = tt
IsDigits-IsPlain (c ∷ cs) (a, b, h) =
    (ground (arith, a, b), ground (arith, a, b), ground (arith, a, b), IsDigits-IsPlain cs h)

IsDigits-HasNoPoint : (cs : List ℕ) → IsDigits cs → HasNoPoint cs
IsDigits-HasNoPoint [] h = tt
IsDigits-HasNoPoint (c ∷ cs) (a, b, h) = (ground (arith, a, b), IsDigits-HasNoPoint cs h)

-- Both ways of reading a run of digits.
reads_digits :
    (last : ℕ) (ds rest : List ℕ)
    → 0 < length ds
    → length ds ≤ 11
    → IsDigits ds
    → (read_int last (ds ++ (10 ∷ rest)) ≡ some (value 0 ds, rest))
      × (read_int last ((45 ∷ ds) ++ (10 ∷ rest)) ≡ some (negate (value 0 ds), rest))
reads_digits last [] rest some_digit few h = absurd (omega arith)
reads_digits last (d ∷ ds) rest some_digit few (a, b, h) =
    let plain = IsDigits-IsPlain (d ∷ ds) (a, b, h) in
    let no_point = IsDigits-HasNoPoint (d ∷ ds) (a, b, h) in
    (
      read_int-value last d ds rest (omega arith) plain no_point (ground (arith, a)),
      read_int-minus last d ds rest (omega arith) plain no_point,
    )

-- For every int but the least one, and whatever the buffers held, PrintInt ends, and ReadInt of a
-- line with the bytes that it has written gives the same int and leaves the rest of the input.
pub read_int-print_int :
    (x last w : ℕ) (garbage rest : List ℕ)
    → length garbage ≡ 255
    → w < 2 ^ 32
    → w ≢ 2 ^ 31
    → (out : List ℕ) × (print_int (x ∷ garbage) w ≡ ok out)
      × (read_int last (out ++ (10 ∷ rest)) ≡ some (w, rest))
read_int-print_int x last w garbage rest size range not_least = elim (Bool-cases (ltb w (2 ^ 31))) [
  | inl positive ↦
      let small : w < 2 ^ 31 = ground (arith, positive) in
      let (k, printed, places, few, bound) =
        print_int-positive (x ∷ garbage) w (ap suc size) small in
      let l = length-digits k w in
      let r =
        reads_digits last (digits k w) rest (omega (arith, l)) (omega (arith, l))
          (digits-IsDigits k w) in
      let v : value 0 (digits k w) ≡ w = value-digits k w bound ∙ omega arith in
      (digits k w, printed, r.0 ∙ ap (λ t. some (t, rest)) v)
  | inr below ↦
      let low : 2 ^ 31 < w = ground (arith, below, not_least) in
      let (k, printed, places, few, bound) = print_int-negative x garbage w size low range in
      let l = length-digits k (negate w) in
      let r =
        reads_digits last (digits k (negate w)) rest (omega (arith, l)) (omega (arith, l))
          (digits-IsDigits k (negate w)) in
      let v : negate (value 0 (digits k (negate w))) ≡ w =
        ap negate (value-digits k (negate w) bound) ∙ omega arith in
      (45 ∷ digits k (negate w), printed, r.1 ∙ ap (λ t. some (t, rest)) v)
]
