-- ===== src/UserMemory/RoundTrip.antt =====
-- A string that the kernel copies out is the string that it copies in again.
use os_project2_nach_os.Base.{
  ℕ, ◌+◌, ◌≤◌, ◌<◌, ◌≡◌, refl, ap, ◌∙◌, false, List, [], ◌∷◌, ◌++◌, ok, length, ◌==◌, arith,
}
use os_project2_nach_os.UserMemory.{write_byte, string_at, system2user}

-- No byte is 0.
abbrev pub IsText : List ℕ → Type 0
IsText [] = Unit {0}
IsText (c ∷ cs) = ((c == 0) ≡ false) × IsText cs

-- What copying a text out leaves: the text at the address, and the rest as it was.
pub record Stored (user : ℕ → ℕ) (addr : ℕ) (text : List ℕ) (user' : ℕ → ℕ) : Type 0 where
  pub reads : string_at user' addr (length text) ≡ text
  pub below : (a : ℕ) → a < addr → user' a ≡ user a
  pub above : (a : ℕ) → addr + length text ≤ a → user' a ≡ user a

pub write_byte_self : (user : ℕ → ℕ) (addr c : ℕ) → write_byte user addr c addr ≡ c
write_byte_self user addr c = ground arith

pub write_byte_other :
    (user : ℕ → ℕ) (addr a c : ℕ) → (a == addr) ≡ false → write_byte user addr c a ≡ user a
write_byte_other user addr a c h = rw h

-- `system2user` of a text of so many bytes, with whatever stands behind it in the buffer, copies
-- all of them; `string_at`, the loop of User2System, then reads the text at that address, and no
-- other byte of user memory has changed.
pub system2user-string_at :
    (user : ℕ → ℕ) (addr : ℕ) (text behind : List ℕ)
    → IsText text
    → (user' : ℕ → ℕ) × (system2user user addr (length text) (text ++ behind)
        ≡ ok (length text, user'))
      × Stored user addr text user'
unfolding system2user string_at
system2user-string_at user addr [] behind t =
    (user, refl, record { reads = refl; below = λ a h. refl; above = λ a h. refl })
system2user-string_at user addr (c ∷ cs) behind t =
    let (user', e, s) = system2user-string_at (write_byte user addr c) (addr + 1) cs behind t.1 in
    let here : user' addr ≡ c = s.below addr (omega arith) ∙ write_byte_self user addr c in
    (
      user',
      rw (t.0, e) (ap (λ n. ok (n, user')) (omega arith)),
      record {
        reads = rw (here, t.0, s.reads);
        below = λ a h. s.below a (omega arith) ∙ write_byte_other user addr a c (ground arith);
        above = λ a h. s.above a (omega arith) ∙ write_byte_other user addr a c (ground arith);
      },
    )
