-- ===== src/Base/Slices.antt =====
-- Byte buffers: parts of a list, writes into it, and the byte at each index. A read past the end
-- is 0 here; the routines check their bounds first.
use Prim.Native.Nat.{ℕ, zero, suc, ◌+◌, ◌-◌, ◌≤◌, ◌<◌}
use mathlib.Core.Path.{◌≡◌, refl, ap, ap₂, ◌∙◌}
use mathlib.Core.List.{List, [], ◌∷◌, ◌++◌}
use native.Mathlib.Omega.{arith}
use os_project2_nach_os.Base.Tests.{ltb, if◌then◌else◌}
use os_project2_nach_os.Base.Lists.{
  length, get_or, take, drop, length-take, length-drop, length-append,
}
use os_project2_nach_os.Base.Results.{Result, ok, err, wild_access}

abbrev pub byte_at : List ℕ → ℕ → ℕ
byte_at xs i = get_or xs i 0

abbrev pub tabulate : (ℕ → ℕ) → ℕ → ℕ → List ℕ
tabulate f i zero = []
tabulate f i (suc n) = f i ∷ tabulate f (i + 1) n

pub length-tabulate : (f : ℕ → ℕ) (i n : ℕ) → length (tabulate f i n) ≡ n
length-tabulate f i zero = refl
length-tabulate f i (suc n) = ap suc (length-tabulate f (i + 1) n)

pub byte_at-tabulate : (f : ℕ → ℕ) (i n j : ℕ) → j < n → byte_at (tabulate f i n) j ≡ f (i + j)
byte_at-tabulate f i zero j h = absurd (omega arith)
byte_at-tabulate f i (suc n) zero h = ap f (omega arith)
byte_at-tabulate f i (suc n) (suc j) h =
    byte_at-tabulate f (i + 1) n j (omega arith) ∙ ap f (omega arith)

pub byte_at-append :
    (xs ys : List ℕ) (i : ℕ)
    → byte_at (xs ++ ys) i
      ≡ (if ltb i (length xs) then byte_at xs i else byte_at ys (i - length xs))
byte_at-append [] ys i = ground arith
byte_at-append (x ∷ xs) ys zero = ground arith
byte_at-append (x ∷ xs) ys (suc i) = ground (arith, byte_at-append xs ys i)

pub byte_at-take : (n : ℕ) (xs : List ℕ) (i : ℕ) → i < n → byte_at (take n xs) i ≡ byte_at xs i
byte_at-take zero xs i h = absurd (omega arith)
byte_at-take (suc n) [] i h = refl
byte_at-take (suc n) (x ∷ xs) zero h = refl
byte_at-take (suc n) (x ∷ xs) (suc i) h = byte_at-take n xs i (omega arith)

pub byte_at-drop : (n : ℕ) (xs : List ℕ) (i : ℕ) → byte_at (drop n xs) i ≡ byte_at xs (n + i)
byte_at-drop zero xs i = ap (byte_at xs) (omega arith)
byte_at-drop (suc n) [] i = refl
byte_at-drop (suc n) (x ∷ xs) i =
    byte_at-drop n xs i ∙ ap (byte_at (x ∷ xs)) {x = suc (n + i)} {y = suc n + i} (omega arith)

-- A list is the table of its bytes.
pub eq-tabulate :
    (f : ℕ → ℕ) (xs : List ℕ) (i : ℕ)
    → ((j : ℕ) → j < length xs → byte_at xs j ≡ f (i + j))
    → xs ≡ tabulate f i (length xs)
eq-tabulate f [] i h = refl
eq-tabulate f (x ∷ xs) i h =
    ap₂ ◌∷◌ (h 0 (omega arith) ∙ ap f (omega arith))
      (eq-tabulate f xs (i + 1) (λ j hj. h (suc j) (omega arith) ∙ ap f (omega arith)))

-- The n bytes of the buffer from offset off on.
abbrev pub slice : List ℕ → ℕ → ℕ → List ℕ
slice buf off n = take n (drop off buf)

pub length-slice : (buf : List ℕ) (off n : ℕ) → off + n ≤ length buf → length (slice buf off n) ≡ n
length-slice buf off n h = omega (arith, length-take n (drop off buf), length-drop off buf)

pub byte_at-slice :
    (buf : List ℕ) (off n i : ℕ) → i < n → byte_at (slice buf off n) i ≡ byte_at buf (off + i)
byte_at-slice buf off n i h = byte_at-take n (drop off buf) i h ∙ byte_at-drop off buf i

-- The buffer with bs written at offset off.
abbrev pub paste : List ℕ → ℕ → List ℕ → List ℕ
paste buf off bs = take off buf ++ (bs ++ drop (off + length bs) buf)

pub length-paste :
    (buf : List ℕ) (off : ℕ) (bs : List ℕ)
    → off + length bs ≤ length buf
    → length (paste buf off bs) ≡ length buf
length-paste buf off bs h = omega (
  arith,
  length-append (take off buf) (bs ++ drop (off + length bs) buf),
  length-append bs (drop (off + length bs) buf),
  length-take off buf,
  length-drop (off + length bs) buf,
)

pub byte_at-paste :
    (buf : List ℕ) (off : ℕ) (bs : List ℕ) (i : ℕ)
    → off + length bs ≤ length buf
    → byte_at (paste buf off bs) i ≡ (
        if ltb i off
        then byte_at buf i
        else (if ltb i (off + length bs) then byte_at bs (i - off) else byte_at buf i))
byte_at-paste buf off bs i h = ground (
  arith,
  taken,
  byte_at-append (take off buf) (bs ++ drop (off + length bs) buf) i,
  byte_at-take off buf i,
  byte_at-append bs (drop (off + length bs) buf) (i - off),
  byte_at-drop (off + length bs) buf (i - off - length bs),
  past,
)
  where
    taken : length (take off buf) ≡ off
    taken = omega (arith, length-take off buf)

    past :
        off + length bs ≤ i → byte_at buf (off + length bs + (i - off - length bs)) ≡ byte_at buf i
    past k = ap (byte_at buf) {x = off + length bs + (i - off - length bs)} {y = i} (omega arith)

pub byte_at-paste_before :
    (buf : List ℕ) (off : ℕ) (bs : List ℕ) (i : ℕ)
    → off + length bs ≤ length buf
    → i < off
    → byte_at (paste buf off bs) i ≡ byte_at buf i
byte_at-paste_before buf off bs i h lt = byte_at-paste buf off bs i h ∙ ground arith

pub byte_at-paste_inside :
    (buf : List ℕ) (off : ℕ) (bs : List ℕ) (i : ℕ)
    → off + length bs ≤ length buf
    → off ≤ i
    → i < off + length bs
    → byte_at (paste buf off bs) i ≡ byte_at bs (i - off)
byte_at-paste_inside buf off bs i h lo hi = byte_at-paste buf off bs i h ∙ ground arith

pub byte_at-paste_after :
    (buf : List ℕ) (off : ℕ) (bs : List ℕ) (i : ℕ)
    → off + length bs ≤ length buf
    → off + length bs ≤ i
    → byte_at (paste buf off bs) i ≡ byte_at buf i
byte_at-paste_after buf off bs i h hi = byte_at-paste buf off bs i h ∙ ground arith

take_all : (xs ys : List ℕ) → take (length xs) (xs ++ ys) ≡ xs
take_all [] ys = refl
take_all (x ∷ xs) ys = ap (x ∷◌) (take_all xs ys)

slice_after :
    (off n : ℕ) (buf ys : List ℕ) → off ≤ length buf → slice (take off buf ++ ys) off n ≡ take n ys
slice_after zero n buf ys h = refl
slice_after (suc off) n [] ys h = absurd (omega arith)
slice_after (suc off) n (x ∷ buf) ys h = slice_after off n buf ys (omega arith)

-- What was pasted is read back.
pub slice-paste :
    (buf : List ℕ) (off : ℕ) (bs : List ℕ)
    → off + length bs ≤ length buf
    → slice (paste buf off bs) off (length bs) ≡ bs
slice-paste buf off bs h =
    slice_after off (length bs) buf (bs ++ drop (off + length bs) buf) (omega arith)
    ∙ take_all bs (drop (off + length bs) buf)

-- bcopy out of a buffer, and into one; past its end is a wild access.
abbrev pub copy_from : List ℕ → ℕ → ℕ → Result (List ℕ)
copy_from buf off n = if ltb (length buf) (off + n) then err wild_access else ok (slice buf off n)

abbrev pub copy_to : List ℕ → ℕ → List ℕ → Result (List ℕ)
copy_to buf off bs =
    if ltb (length buf) (off + length bs) then err wild_access else ok (paste buf off bs)
