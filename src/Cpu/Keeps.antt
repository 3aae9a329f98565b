-- ===== src/Cpu/Keeps.antt =====
-- Every instruction keeps the machine's state, and stays inside the arrays.
use native.Mathlib.Nat.{div-le_self, mod-le}
use os_project2_nach_os.Base.{
  ℕ, zero, suc, ◌-◌, ◌*◌, ◌/◌, ◌%◌, ◌≤◌, ◌<◌, ◌≡◌, inl, inr, refl, Bool, true, false, ◌&&◌, Option,
  none, some, Result, ok, ◌>>=◌, Ends, >>=-Ends, at_assertion, at_trap, ◌==◌, Bool-cases,
  if◌then◌else◌, arith,
}
use os_project2_nach_os.Memory.{ExceptionType, Machine, address_error_exception, overflow_exception}
use os_project2_nach_os.Memory.Access.{
  load_value_reg, raise_exception, read_mem, write_mem, is_access_size,
}
use os_project2_nach_os.Decode.{Instruction}
use os_project2_nach_os.Mult.{word, sign_bit, is_negative, negated, shift_right}
use os_project2_nach_os.Cpu.{
  reg, with_reg, hi_reg, lo_reg, next_pc_reg, add32, shift_right_times, signs_differ, bool_int,
  absolute, divide, Executed, broke, returned, put, put_hi_lo, branch, link,
}
use os_project2_nach_os.Cpu.Transfer.{
  byte_value, half_value, left_value, right_value, pending, assert_aligned, loaded, load_from,
  load_checked, stored, store_to, merged, store_merged,
}
use os_project2_nach_os.Cpu.Step.{jump, put_checked}
use os_project2_nach_os.Cpu.State.{IsMachine, IsReady, with_reg-IsMachine}
use os_project2_nach_os.Cpu.Memory.{
  KeepsState, ReadDone, WriteDone, raise_exception-Ends, read_mem-Ends, write_mem-Ends,
}

-- After the switch the machine is whole, and pcAfter, nextLoadReg and nextLoadValue are in range.
abbrev pub ExecutedDone : Executed → Type 0
ExecutedDone (broke m pc_after load value) =
    IsMachine m × (pc_after < word) × (load < 32) × (value < word)
ExecutedDone (returned m) = IsReady m

-- The fields that Decode makes.
pub record IsFields (i : Instruction) : Type 0 where
  pub rs_below : i.rs < 32
  pub rt_below : i.rt < 32
  pub rd_below : i.rd < 32
  pub extra_below : i.extra < word

pub put_done :
    (m : Machine) (n v : ℕ) → n < 34 → v < word → IsMachine m → Ends ExecutedDone (put m n v)
put_done m n v hn hv g = (
  with_reg-IsMachine m n v (λ q. absurd (omega (arith, hn, q))) hv g,
  omega arith,
  omega arith,
  omega arith,
)

pub put_hi_lo_done :
    (m : Machine) (hi lo : ℕ)
    → hi < word
    → lo < word
    → IsMachine m
    → Ends ExecutedDone (put_hi_lo m hi lo)
put_hi_lo_done m hi lo hh hl g =
    let lower = with_reg-IsMachine m lo_reg lo (λ q. absurd (omega (arith, q))) hl g in
    (
      with_reg-IsMachine (with_reg m lo_reg lo) hi_reg hi (λ q. absurd (omega (arith, q))) hh lower,
      omega arith,
      omega arith,
      omega arith,
    )

pub jump_done :
    (m : Machine) (target : ℕ) → target < word → IsMachine m → Ends ExecutedDone (jump m target)
jump_done m target h g = (g, h, omega arith, omega arith)

pub branch_done :
    (m : Machine) (extra : ℕ) (taken : Bool)
    → IsMachine m
    → Ends ExecutedDone (branch m extra taken)
branch_done m extra true g = (g, omega arith, omega arith, omega arith)
branch_done m extra false g = (g, omega arith, omega arith, omega arith)

pub link-IsMachine : (m : Machine) (n : ℕ) → n < 32 → IsMachine m → IsMachine (link m n)
link-IsMachine m n h g =
    with_reg-IsMachine m n (add32 (reg m next_pc_reg) 4) (λ q. absurd (omega (arith, h, q)))
      (omega arith) g

pub shift_right_times-lt : (k a : ℕ) → a < word → shift_right_times k a < word
shift_right_times-lt zero a h = h
shift_right_times-lt (suc k) a h = shift_right_times-lt k (shift_right a) (ground arith)

absolute-le : (a : ℕ) → a < word → absolute a ≤ sign_bit
absolute-le a h = ground arith

signed_part-lt : (n : Bool) (x : ℕ) → x < word → (if n then negated x else x) < word
signed_part-lt true x h = omega arith
signed_part-lt false x h = h

pub divide-Ends : (a b : ℕ) → a < word → Ends (λ (q, r). (q < word) × (r < word)) (divide a b)
divide-Ends a b h = elim (Bool-cases ((a == sign_bit) && (b == word - 1))) [
  | inl trap ↦ rw (trap) at_trap
  | inr fine ↦ rw (fine) (
    signed_part-lt (signs_differ a b) (absolute a / absolute b)
        (omega (arith, absolute-le a h, div-le_self (absolute a) (absolute b))),
    signed_part-lt (is_negative a) (absolute a % absolute b)
        (omega (arith, absolute-le a h, mod-le (absolute a) (absolute b))),
  )
]

pub bool_int-lt : (b : Bool) → bool_int b < word
bool_int-lt true = omega arith
bool_int-lt false = omega arith

pub byte_value-lt : (signed : Bool) (v : ℕ) → byte_value signed v < word
byte_value-lt signed v = ground arith

pub half_value-lt : (signed : Bool) (v : ℕ) → half_value signed v < word
half_value-lt signed v = ground arith

pub left_value-lt : (offset old v : ℕ) → old < word → v < word → left_value offset old v < word
left_value-lt offset old v ho hv = ground arith

pub right_value-lt : (offset old v : ℕ) → old < word → v < word → right_value offset old v < word
right_value-lt offset old v ho hv = ground arith

pub pending-lt : (m : Machine) (rt : ℕ) → IsMachine m → pending m rt < word
pending-lt m rt g = ground (arith, g.words load_value_reg, g.words rt)

module _ (system_call : Machine → Result Machine) (keeps : KeepsState system_call) where
  pub raise_done :
      (m : Machine) (which : ExceptionType) (addr : ℕ)
      → addr < word
      → IsMachine m
      → Ends ExecutedDone (raise_exception system_call m which addr >>= λ m'. ok (returned m'))
  raise_done m which addr h g =
      >>=-Ends IsReady ExecutedDone (raise_exception system_call m which addr)
        (λ m'. ok (returned m')) (raise_exception-Ends system_call m which addr keeps g h)
        (λ m' r. r)

  pub put_checked_done :
      (m : Machine) (n v : ℕ) (overflowed : Bool)
      → n < 34
      → v < word
      → IsMachine m
      → Ends ExecutedDone (put_checked system_call m n v overflowed)
  put_checked_done m n v true hn hv g = raise_done m overflow_exception 0 (omega arith) g
  put_checked_done m n v false hn hv g = put_done m n v hn hv g

  loaded_done :
      (rt : ℕ) (convert : Machine → ℕ → ℕ) (o : Option ℕ) (m : Machine)
      → rt < 32
      → ((n : Machine) (v : ℕ) → IsMachine n → v < word → convert n v < word)
      → ReadDone (o, m)
      → Ends ExecutedDone (loaded system_call rt convert (o, m))
  loaded_done rt convert none m hr small r = r
  loaded_done rt convert (some v) m hr small (g, hv) = (g, omega arith, hr, small m v g hv)

  pub load_done :
      (m : Machine) (a size rt : ℕ) (convert : Machine → ℕ → ℕ)
      → a < word
      → is_access_size size ≡ true
      → rt < 32
      → ((n : Machine) (v : ℕ) → IsMachine n → v < word → convert n v < word)
      → IsMachine m
      → Ends ExecutedDone (load_from system_call m a size rt convert)
  load_done m a size rt convert ha access hr small g =
      >>=-Ends ReadDone ExecutedDone (read_mem system_call m a size) (loaded system_call rt convert)
        (read_mem-Ends system_call keeps m a size g ha access)
        (λ (o, n) r. loaded_done rt convert o n hr small r)

  pub load_checked_done :
      (m : Machine) (a size rt : ℕ) (convert : Machine → ℕ → ℕ)
      → a < word
      → is_access_size size ≡ true
      → rt < 32
      → ((n : Machine) (v : ℕ) → IsMachine n → v < word → convert n v < word)
      → IsMachine m
      → Ends ExecutedDone (load_checked system_call m a size rt convert)
  load_checked_done m a size rt convert ha access hr small g = elim (Bool-cases (a % size == 0)) [
    | inl aligned ↦ rw (aligned) (load_done m a size rt convert ha access hr small g)
    | inr bad ↦ rw (bad) (raise_done m address_error_exception a ha g)
  ]

  pub aligned_load_done :
      (m : Machine) (a rt : ℕ) (convert : Machine → ℕ → ℕ)
      → a < word
      → rt < 32
      → ((n : Machine) (v : ℕ) → IsMachine n → v < word → convert n v < word)
      → IsMachine m
      → Ends ExecutedDone (assert_aligned a >>= λ _. load_from system_call m a 4 rt convert)
  aligned_load_done m a rt convert ha hr small g = elim (Bool-cases (a % 4 == 0)) [
    | inl aligned ↦ rw (aligned) (load_done m a 4 rt convert ha refl hr small g)
    | inr bad ↦ rw (bad) at_assertion
  ]

  stored_done :
      (b : Bool) (m : Machine) → WriteDone (b, m) → Ends ExecutedDone (stored system_call (b, m))
  stored_done false m r = r
  stored_done true m g = (g, omega arith, omega arith, omega arith)

  pub store_done :
      (m : Machine) (a size v : ℕ)
      → a < word
      → is_access_size size ≡ true
      → IsMachine m
      → Ends ExecutedDone (store_to system_call m a size v)
  store_done m a size v ha access g =
      >>=-Ends WriteDone ExecutedDone (write_mem system_call m a size v) (stored system_call)
        (write_mem-Ends system_call keeps m a size v g ha access) (λ (b, n) r. stored_done b n r)

  merged_done :
      (a : ℕ) (merge : Machine → ℕ → ℕ) (o : Option ℕ) (m : Machine)
      → a < word
      → ReadDone (o, m)
      → Ends ExecutedDone (merged system_call a merge (o, m))
  merged_done a merge none m ha r = r
  merged_done a merge (some v) m ha (g, hv) =
      store_done m (a / 4 * 4) 4 (merge m v) (omega arith) refl g

  pub store_merged_done :
      (m : Machine) (a : ℕ) (merge : Machine → ℕ → ℕ)
      → a < word
      → IsMachine m
      → Ends ExecutedDone (store_merged system_call m a merge)
  store_merged_done m a merge ha g = elim (Bool-cases (a % 4 == 0)) [
    | inl aligned ↦ rw (aligned) (
        >>=-Ends ReadDone ExecutedDone (read_mem system_call m (a / 4 * 4) 4)
          (merged system_call a merge)
          (read_mem-Ends system_call keeps m (a / 4 * 4) 4 g (omega arith) refl)
          (λ (o, n) r. merged_done a merge o n ha r))
    | inr bad ↦ rw (bad) at_assertion
  ]
