-- ===== src/Base/Results.antt =====
-- How a kernel routine ends: with a value, at a failed ASSERT, with an access outside an array, or
-- with the machine halted, or in a trap of the host, such as its division takes. A loop of the model
-- that has used up its rounds ends in `out_of_rounds`.
use mathlib.Core.Path.{◌≡◌, refl}
use mathlib.Core.Option.{Option, none, some}

pub data Fault : Type 0 where
  assertion_failed wild_access machine_halted host_trap out_of_rounds : Fault

-- `err` stops the kernel, so nothing after it runs.
pub data Result {u} (T : Type u) : Type u where
  err : Fault → Result T
  ok : T → Result T

-- A read of an array outside its bounds.
abbrev pub or_wild {u} : {T : Type u} → Option T → Result T
or_wild (some x) = ok x
or_wild none = err wild_access

infixl 5 ◌>>=◌
abbrev pub ◌>>=◌ {u v} : {S : Type u} {T : Type v} → Result S → (S → Result T) → Result T
err fault >>= next = err fault
ok x >>= next = next x

-- What a finished sequence says of its first part.
pub >>=-eq-ok {u v} :
    {S : Type u} {T : Type v} (first : Result S) (next : S → Result T) {y : T}
    → (first >>= next) ≡ ok y
    → (x : S) × (first ≡ ok x) × (next x ≡ ok y)
>>=-eq-ok (err fault) next done = cc
>>=-eq-ok (ok x) next done = (x, refl, done)

infixl 5 ◌>>◌
abbrev pub ◌>>◌ {v} : {T : Type v} → Result (Unit {0}) → Result T → Result T
check >> rest = check >>= λ _. rest

-- The ends of a routine that stays inside its arrays.
pub data Stops : Fault → Type 0 where
  at_assertion : Stops assertion_failed
  at_halt : Stops machine_halted
  at_trap : Stops host_trap

-- The result satisfies P, or the routine stopped, but not at an access outside an array.
abbrev pub Ends {u} : {T : Type u} → (T → Type 0) → Result T → Type 0
Ends P (ok x) = P x
Ends P (err fault) = Stops fault

pub >>=-Ends {u v} :
    {S : Type u} {T : Type v} (P : S → Type 0) (Q : T → Type 0) (first : Result S)
    (next : S → Result T)
    → Ends P first
    → ((x : S) → P x → Ends Q (next x))
    → Ends Q (first >>= next)
>>=-Ends P Q (err fault) next stops keep = stops
>>=-Ends P Q (ok x) next holds keep = keep x holds
