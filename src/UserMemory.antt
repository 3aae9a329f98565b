-- ===== src/UserMemory.antt =====
-- nachos/nachos-3.4/code/machine/machine.cc: User2System and System2User, which copy strings between
-- a user program and the kernel. User memory is its bytes by virtual address, where every page that
-- is touched is mapped, so ReadMem and WriteMem of one byte do not fail. A buffer is its bytes.
pub mod RoundTrip
mod Examples
use os_project2_nach_os.Base.{
  ℕ, zero, suc, ◌+◌, ◌-◌, List, [], ◌∷◌, ◌++◌, Result, ok, err, wild_access, ◌>>=◌, length,
  replicate, ◌==◌, if◌then◌else◌,
}

-- machine->WriteMem(addr, 1, c)
abbrev pub write_byte : (ℕ → ℕ) → ℕ → ℕ → ℕ → ℕ
write_byte user addr c a = if a == addr then c else user a

-- The loop of User2System, as the bytes that it stores before a 0, at most so many.
unfoldable pub string_at : (ℕ → ℕ) → ℕ → ℕ → List ℕ
string_at user addr zero = []
string_at user addr (suc limit) =
    let later = string_at user (addr + 1) limit in if user addr == 0 then [] else user addr ∷ later

-- User2System, whose buffer has room for one byte more and is 0 behind the string.
unfoldable pub user2system : (ℕ → ℕ) → ℕ → ℕ → List ℕ
unfolding string_at
user2system user addr limit =
    string_at user addr limit ++ replicate (limit + 1 - length (string_at user addr limit)) 0

-- The loop of System2User with so many bytes left, which stops behind a 0: memory and the number
-- of bytes copied. A read behind the buffer is `wild_access`.
unfoldable pub system2user : (ℕ → ℕ) → ℕ → ℕ → List ℕ → Result (ℕ × (ℕ → ℕ))
system2user user addr zero buffer = ok (0, user)
system2user user addr (suc len) [] = err wild_access
system2user user addr (suc len) (c ∷ buffer) =
    let more =
      system2user (write_byte user addr c) (addr + 1) len buffer >>= λ (n, u). ok (n + 1, u) in
    if c == 0 then ok (1, write_byte user addr c) else more
