-- ===== src/Integer/Print.antt =====
-- The digits that PrintInt of userprog/exception.cc writes.
use os_project2_nach_os.Base.{
  ℕ, zero, suc, ◌+◌, ◌/◌, ◌%◌, ◌^◌, ◌≤◌, ◌<◌, ◌≡◌, ◌≢◌, refl, sym, ap, ◌∙◌, true, false, List, [],
  ◌∷◌, ◌++◌, append_assoc, ok, length, length-append, take, drop, take-append-drop, length-take,
  set, ltb, ◌==◌, Bool-cases, inl, inr, arith,
}
use native.Mathlib.Nat.{pow-suc}
use os_project2_nach_os.Integer.{negate, div_ten, rem_ten, num_length, put_digits, print_int}
use os_project2_nach_os.Integer.Digits.{digits, length-digits}

-- The division of an int that is not negative.
div_ten_positive : (n : ℕ) → n < 2 ^ 31 → div_ten n ≡ n / 10
div_ten_positive n h = ground arith

rem_ten_positive : (n : ℕ) → n < 2 ^ 31 → (rem_ten n + 48) % 256 ≡ n % 10 + 48
rem_ten_positive n h = ground arith

-- The loop finds enough places.
pub num_length-enough :
    (rounds n count : ℕ)
    → n < 2 ^ 31
    → n < 10 ^ rounds
    → (k : ℕ) × (num_length (suc rounds) n count ≡ ok (count + k))
      × (k ≤ rounds)
      × (n < 10 ^ k)
      × (n ≢ 0 → 0 < k)
unfolding num_length
num_length-enough zero n count small h =
    let none_left : (n == 0) ≡ true = ground (arith, h) in
    (
      0,
      rw (none_left) (ap ok (omega arith)),
      omega arith,
      omega (arith, h),
      λ ne. absurd (ne (omega (arith, h))),
    )
num_length-enough (suc rounds) n count small h = elim (Bool-cases (n == 0)) [
  | inl empty ↦
      let z : n ≡ 0 = ground (arith, empty) in
      (0, rw (empty) (ap ok (omega arith)), omega arith, omega (arith, z), λ ne. absurd (ne z))
  | inr more ↦
      let p = pow-suc 10 rounds in
      let (k, e, le, lt, ne) =
        num_length-enough rounds (n / 10) (count + 1) (omega arith) (omega (arith, p, h)) in
      let q = pow-suc 10 k in
      (
        suc k,
        rw (more, div_ten_positive n small) (e ∙ ap ok (omega arith)),
        omega arith,
        omega (arith, q, lt),
        λ not_zero. omega arith,
      )
]

-- The last element of a list that is not empty.
split_last :
    (k : ℕ) (m : List ℕ)
    → length m ≡ suc k
    → (m' : List ℕ) × (x : ℕ) × (m ≡ m' ++ (x ∷ [])) × (length m' ≡ k)
split_last k [] h = absurd (omega arith)
split_last zero (x ∷ []) h = ([], x, refl, refl)
split_last zero (x ∷ y ∷ m) h = absurd (omega arith)
split_last (suc k) (x ∷ m) h =
    let (m', y, e, l) = split_last k m (omega arith) in (x ∷ m', y, ap (λ t. x ∷ t) e, ap suc l)

pub set-append :
    (a : List ℕ) (x : ℕ) (r : List ℕ) (v i : ℕ)
    → length a ≡ i
    → set (a ++ (x ∷ r)) i v ≡ a ++ (v ∷ r)
set-append [] x r v zero h = refl
set-append [] x r v (suc i) h = absurd (omega arith)
set-append (y ∷ a) x r v zero h = absurd (omega arith)
set-append (y ∷ a) x r v (suc i) h = ap (λ t. y ∷ t) (set-append a x r v i (omega arith))

-- The loop writes the digits over the bytes m and leaves the others.
pub put_digits-digits :
    (k first n : ℕ) (a m r : List ℕ)
    → length a ≡ first
    → length m ≡ k
    → n < 2 ^ 31
    → put_digits k first n (a ++ (m ++ r)) ≡ a ++ (digits k n ++ r)
unfolding put_digits
put_digits-digits zero first n a [] r ha hm small = refl
put_digits-digits zero first n a (x ∷ m) r ha hm small = absurd (omega arith)
put_digits-digits (suc k) first n a m r ha hm small =
    let (m', x, e, l) = split_last k m hm in
    let d : ℕ = n % 10 + 48 in
    let stored : set (a ++ (m ++ r)) (first + k) d ≡ a ++ (m' ++ (d ∷ r)) =
      ap (λ t. set (a ++ (t ++ r)) (first + k) d) e
      ∙ ap (λ t. set (a ++ t) (first + k) d) (append_assoc m' (x ∷ []) r)
      ∙ ap (λ t. set t (first + k) d) (sym (append_assoc a m' (x ∷ r)))
      ∙ set-append (a ++ m') x r d (first + k) (length-append a m' ∙ omega arith)
      ∙ append_assoc a m' (d ∷ r) in
    rw (div_ten_positive n small, rem_ten_positive n small)
      (ap (put_digits k first (n / 10)) stored
        ∙ put_digits-digits k first (n / 10) a m' (d ∷ r) ha l (omega arith)
        ∙ ap (λ t. a ++ t) (sym (append_assoc (digits k (n / 10)) (d ∷ []) r)))

pub take-set : (n : ℕ) (xs : List ℕ) (v : ℕ) → take n (set xs n v) ≡ take n xs
take-set zero xs v = refl
take-set (suc n) [] v = refl
take-set (suc n) (x ∷ xs) v = ap (λ t. x ∷ t) (take-set n xs v)

pub take-append : (n : ℕ) (xs ys : List ℕ) → length xs ≡ n → take n (xs ++ ys) ≡ xs
take-append zero [] ys h = refl
take-append zero (x ∷ xs) ys h = absurd (omega arith)
take-append (suc n) [] ys h = absurd (omega arith)
take-append (suc n) (x ∷ xs) ys h = ap (λ t. x ∷ t) (take-append n xs ys (omega arith))

-- The bytes of a buffer in front of a place, k bytes from it, and the rest.
abbrev the_digits : ℕ → ℕ → List ℕ → List ℕ
the_digits k n m = digits k n ++ drop k m

filled : (k n : ℕ) (b : List ℕ) → k ≤ length b → n < 2 ^ 31 → put_digits k 0 n b ≡ the_digits k n b
filled k n b le small =
    ap (put_digits k 0 n) (sym (take-append-drop k b))
    ∙ put_digits-digits k 0 n [] (take k b) (drop k b) refl (length-take k b ∙ omega arith) small

filled_after_sign :
    (k n x : ℕ) (b : List ℕ)
    → k ≤ length b
    → n < 2 ^ 31
    → put_digits k 1 n (x ∷ b) ≡ x ∷ the_digits k n b
filled_after_sign k n x b le small =
    ap (λ t. put_digits k 1 n (x ∷ t)) (sym (take-append-drop k b))
    ∙ put_digits-digits k 1 n (x ∷ []) (take k b) (drop k b) refl (length-take k b ∙ omega arith)
        small

-- What PrintInt writes for a number that is not negative.
pub print_int-positive :
    (garbage : List ℕ) (w : ℕ)
    → length garbage ≡ 256
    → w < 2 ^ 31
    → (k : ℕ) × (print_int garbage w ≡ ok (digits k w)) × (0 < k) × (k ≤ 11) × (w < 10 ^ k)
unfolding print_int
print_int-positive garbage w size small = elim (Bool-cases (w == 0)) [
  | inl empty ↦
      let z : w ≡ 0 = ground (arith, empty) in
      (
        1,
        rw (empty) (ap (λ t. ok (digits 1 t)) (sym z)),
        omega arith,
        omega arith,
        omega (arith, z),
      )
  | inr more ↦
      let sign : ltb w (2 ^ 31) ≡ true = ground (arith, small) in
      let (k, e, le, lt, ne) = num_length-enough 11 w 0 small (omega arith) in
      let e' : num_length 12 w 0 ≡ ok k = e ∙ ap ok (omega arith) in
      (
        k,
        rw (more, sign, e')
            (ap ok (
              take-set k (put_digits k 0 w garbage) 0
              ∙ ap (take k) (filled k w garbage (omega arith) small)
              ∙ take-append k (digits k w) (drop k garbage) (length-digits k w))),
        ne (λ z. absurd (let f : ⊥ = ground (arith, more, z) in f)),
        le,
        lt,
      )
]

-- The bytes that go out after the sign.
written :
    (k n x : ℕ) (b : List ℕ)
    → k ≤ length b
    → n < 2 ^ 31
    → take (k + 1) (set (set (put_digits k 1 n (x ∷ b)) 0 45) (k + 1) 0) ≡ 45 ∷ digits k n
written k n x b le small =
    take-set (k + 1) (set (put_digits k 1 n (x ∷ b)) 0 45) 0
    ∙ ap (λ t. take (k + 1) (set t 0 45)) (filled_after_sign k n x b le small)
    ∙ take-append (k + 1) (45 ∷ digits k n) (drop k b)
        (let l = length-digits k n in omega (arith, l))

-- What it writes for a negative one, the least int excepted.
pub print_int-negative :
    (x : ℕ) (garbage : List ℕ) (w : ℕ)
    → length garbage ≡ 255
    → 2 ^ 31 < w
    → w < 2 ^ 32
    → (k : ℕ) × (print_int (x ∷ garbage) w ≡ ok (45 ∷ digits k (negate w)))
      × (0 < k)
      × (k ≤ 11)
      × (negate w < 10 ^ k)
unfolding print_int
print_int-negative x garbage w size low high =
    let nonzero : (w == 0) ≡ false = ground (arith, low) in
    let sign : ltb w (2 ^ 31) ≡ false = ground (arith, low) in
    let small : negate w < 2 ^ 31 = omega arith in
    let (k, e, le, lt, ne) = num_length-enough 11 (negate w) 0 small (omega arith) in
    let e' : num_length 12 (negate w) 0 ≡ ok k = e ∙ ap ok (omega arith) in
    (
      k,
      rw (nonzero, sign, e') (ap ok (written k (negate w) x garbage (omega arith) small)),
      ne (λ z. omega (arith, z)),
      le,
      lt,
    )
