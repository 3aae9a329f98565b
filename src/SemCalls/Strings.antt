-- ===== src/SemCalls/Strings.antt =====
-- The strings that one call reads with one limit and another call with another.
use os_project2_nach_os.Base.{
  ℕ, zero, suc, ◌+◌, ◌≤◌, ◌<◌, ◌≡◌, refl, ap, false, ◌∷◌, length, ◌==◌, Bool-cases, inl, inr, arith,
}
use os_project2_nach_os.SemTable.{strcmp_eq}
use os_project2_nach_os.UserMemory.{string_at}

-- A larger limit reads no more of a string that is short enough.
pub string_at_short :
    (user : ℕ → ℕ) (addr m n : ℕ)
    → m ≤ n
    → length (string_at user addr n) ≤ m
    → string_at user addr m ≡ string_at user addr n
unfolding string_at
string_at_short user addr zero zero le short = refl
string_at_short user addr (suc m) zero le short = absurd (omega arith)
string_at_short user addr zero (suc n) le short = elim (Bool-cases (user addr == 0)) [
  | inl e ↦ rw e refl
  | inr e ↦ absurd (omega (arith, rw e at short))
]
string_at_short user addr (suc m) (suc n) le short = elim (Bool-cases (user addr == 0)) [
  | inl e ↦ rw e refl
  | inr e ↦ rw e (
      ap (λ l. user addr ∷ l)
        (string_at_short user (addr + 1) m n (omega arith) (omega (arith, rw e at short))))
]

-- A longer string is no name for its beginning.
pub string_at_long :
    (user : ℕ → ℕ) (addr m n : ℕ)
    → m < length (string_at user addr n)
    → strcmp_eq (string_at user addr m) (string_at user addr n) ≡ false
unfolding string_at
string_at_long user addr m zero long = absurd (omega arith)
string_at_long user addr zero (suc n) long = elim (Bool-cases (user addr == 0)) [
  | inl e ↦ absurd (omega (arith, rw e at long))
  | inr e ↦ rw (e, e) refl
]
string_at_long user addr (suc m) (suc n) long = elim (Bool-cases (user addr == 0)) [
  | inl e ↦ absurd (omega (arith, rw e at long))
  | inr e ↦
      let later = string_at_long user (addr + 1) m n (omega (arith, rw e at long)) in
      rw e (ground (arith, later, e))
]
