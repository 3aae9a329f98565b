-- ===== src/UserMemory/Examples.antt =====
-- Strings between the kernel and a program, at concrete inputs.
use os_project2_nach_os.Base.{ℕ, ◌≡◌, refl, [], ◌∷◌}
use os_project2_nach_os.UserMemory.{write_byte, string_at, user2system}

-- Every byte is 7, but for the one at 12.
abbrev memory : ℕ → ℕ
memory = write_byte (λ a. 7) 12 0

reads_to_zero : user2system memory 10 4 ≡ 7 ∷ 7 ∷ 0 ∷ 0 ∷ 0 ∷ []
unfolding user2system string_at
reads_to_zero = refl
