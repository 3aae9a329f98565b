-- ===== src/Integer/Examples.antt =====
-- Tests and examples of the ints that are read and printed.
use os_project2_nach_os.Base.{
  ℕ, ◌^◌, ◌-◌, ◌≡◌, refl, List, [], ◌∷◌, ◌++◌, some, ok, replicate, arith,
}
use os_project2_nach_os.Console.{read, read_bytes}
use os_project2_nach_os.Integer.{
  num_length, put_digits, print_int, only_zeros, check_line, convert, parse_int, read_int,
}
use os_project2_nach_os.Integer.Digits.{value}
use os_project2_nach_os.Integer.Parse.{read_int-value}
use os_project2_nach_os.Integer.RoundTrip.{read_int-print_int}

-- -42
minus_forty_two : print_int (replicate 20 7) (2 ^ 32 - 42) ≡ ok (45 ∷ 52 ∷ 50 ∷ [])
unfolding print_int num_length put_digits
minus_forty_two = refl

-- The least int prints as "-./,),(-*,(".
least_int :
    print_int (replicate 20 7) (2 ^ 31)
    ≡ ok (45 ∷ 46 ∷ 47 ∷ 44 ∷ 41 ∷ 44 ∷ 40 ∷ 45 ∷ 42 ∷ 44 ∷ 40 ∷ [])
unfolding print_int num_length put_digits
least_int = refl

-- "12.00" is 12 and "12.5" is refused.
with_point : parse_int 5 (49 ∷ 50 ∷ 46 ∷ 48 ∷ 48 ∷ []) ≡ 12
unfolding parse_int check_line only_zeros convert
with_point = refl

not_an_int : parse_int 4 (49 ∷ 50 ∷ 46 ∷ 53 ∷ []) ≡ 0
unfolding parse_int check_line only_zeros convert
not_an_int = refl

-- An empty line gives -48.
empty_line : read_int 0 (10 ∷ []) ≡ some (2 ^ 32 - 48, [])
unfolding read_int read read_bytes parse_int check_line convert
empty_line = refl

-- "ab" is read as 49 * 10 + 50.
read_int-value_example :
    read_int 0 ((97 ∷ 98 ∷ []) ++ (10 ∷ [])) ≡ some (value 0 (97 ∷ 98 ∷ []), [])
read_int-value_example =
    read_int-value 0 97 (98 ∷ []) [] (omega arith) (refl, refl, refl, (refl, refl, refl, tt))
      (refl, (refl, tt)) refl

read_int-print_int_example :
    (out : List ℕ) × (print_int (7 ∷ replicate 255 7) (2 ^ 32 - 42) ≡ ok out)
    × (read_int 0 (out ++ (10 ∷ 65 ∷ [])) ≡ some (2 ^ 32 - 42, 65 ∷ []))
read_int-print_int_example =
    read_int-print_int 7 0 (2 ^ 32 - 42) (replicate 255 7) (65 ∷ []) refl (omega arith)
      (λ e. omega (arith, e))
