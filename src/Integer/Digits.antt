-- ===== src/Integer/Digits.antt =====
-- Decimal notation, as ReadInt and PrintInt of userprog/exception.cc are to read and to write it.
use os_project2_nach_os.Base.{
  ℕ, zero, suc, ◌+◌, ◌*◌, ◌/◌, ◌%◌, ◌^◌, ◌<◌, ◌≡◌, refl, ap, ◌∙◌, List, [], ◌∷◌, ◌++◌, length,
  length-append, get_or, arith,
}
use native.Mathlib.Nat.{pow-suc}
use os_project2_nach_os.Integer.{digit_of, convert}

-- The last k decimal digits of n, as characters.
abbrev pub digits : ℕ → ℕ → List ℕ
digits zero n = []
digits (suc k) n = digits k (n / 10) ++ ((n % 10 + 48) ∷ [])

-- What a run of characters adds to a number, in 32 bits.
abbrev pub value : ℕ → List ℕ → ℕ
value acc [] = acc
value acc (c ∷ cs) = value ((acc * 10 + digit_of c) % 2 ^ 32) cs

pub length-digits : (k n : ℕ) → length (digits k n) ≡ k
length-digits zero n = refl
length-digits (suc k) n =
    omega (arith, length-append (digits k (n / 10)) ((n % 10 + 48) ∷ []), length-digits k (n / 10))

value-append :
    (acc : ℕ) (cs : List ℕ) (d : ℕ)
    → value acc (cs ++ (d ∷ [])) ≡ (value acc cs * 10 + digit_of d) % 2 ^ 32
value-append acc [] d = refl
value-append acc (c ∷ cs) d = value-append ((acc * 10 + digit_of c) % 2 ^ 32) cs d

digit_of-digit : (n : ℕ) → digit_of (n % 10 + 48) ≡ n % 10
digit_of-digit n = ground arith

-- Enough digits of a number have its value.
pub value-digits : (k n : ℕ) → n < 10 ^ k → value 0 (digits k n) ≡ n % 2 ^ 32
value-digits zero n h = omega arith
value-digits (suc k) n h =
    let a = value-append 0 (digits k (n / 10)) (n % 10 + 48) in
    let less : n / 10 < 10 ^ k = (let p = pow-suc 10 k in omega (arith, p, h)) in
    let b = value-digits k (n / 10) less in let c = digit_of-digit n in a ∙ rw (b, c) (omega arith)

-- The buffer has these characters from index i on.
abbrev pub At : List ℕ → ℕ → List ℕ → Type 0
At buffer i [] = Unit {0}
At buffer i (c ∷ cs) = (get_or buffer i 0 ≡ c) × At buffer (i + 1) cs

At-cons : (x : ℕ) (b : List ℕ) (i : ℕ) (cs : List ℕ) → At b i cs → At (x ∷ b) (suc i) cs
At-cons x b i [] h = tt
At-cons x b i (c ∷ cs) h = (h.0, shift (At-cons x b (i + 1) cs h.1))
  where
    shift : At (x ∷ b) (suc (i + 1)) cs → At (x ∷ b) (suc i + 1) cs
    shift h' = rw (same) h'
      where
        same : suc i + 1 ≡ suc (i + 1)
        same = omega arith

pub At-start : (cs r : List ℕ) → At (cs ++ r) 0 cs
At-start [] r = tt
At-start (c ∷ cs) r = (refl, At-cons c (cs ++ r) 0 cs (At-start cs r))

pub At-after_first : (x : ℕ) (cs r : List ℕ) → At (x ∷ (cs ++ r)) 1 cs
At-after_first x cs r = At-cons x (cs ++ r) 0 cs (At-start cs r)

pub convert-At :
    (b : List ℕ) (i acc : ℕ) (cs : List ℕ) → At b i cs → convert (length cs) i acc b ≡ value acc cs
unfolding convert
convert-At b i acc [] h = refl
convert-At b i acc (c ∷ cs) h =
    convert-At b (i + 1) ((acc * 10 + digit_of (get_or b i 0)) % 2 ^ 32) cs h.1
    ∙ ap (λ x. value ((acc * 10 + digit_of x) % 2 ^ 32) cs) h.0
