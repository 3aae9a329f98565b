-- ===== src/SemTable/Examples.antt =====
-- Tests and examples of the table of semaphores: one slot is in use.
use os_project2_nach_os.Base.{
  ℕ, ◌≡◌, ◌<◌, refl, ap, Bool, true, false, List, [], ◌∷◌, none, some, Result, ok, err, arith,
  replicate, get_elem?, ◌/◌, ◌%◌, sym, ◌∙◌, zero, suc,
}
use os_project2_nach_os.Base.Bits.{bit}
use os_project2_nach_os.Utility.{div_round_up}
use os_project2_nach_os.BitMap.{test, mark, find_free_slot}
use os_project2_nach_os.BitMap.Sets.{marked}
use os_project2_nach_os.Threads.{running, outside, Kernel, booted}
use os_project2_nach_os.Threads.State.{IsGood, RunsAt}
use os_project2_nach_os.Threads.Wakeup.{booted-IsGood}
use os_project2_nach_os.SemTable.{Sem, SemTable, find_from, find, create, wait, signal}
use os_project2_nach_os.SemTable.Search.{IsTable}
use os_project2_nach_os.SemTable.Created.{Created, create-Created}
use os_project2_nach_os.SemTable.Calls.{Knows, wait-signal-IsGood}

-- The name "ab".
abbrev ab : List ℕ
ab = 97 ∷ 98 ∷ []

abbrev first_sem : Sem
first_sem = record { name = ab; sem = 4 }

-- Slot 0 is in use.
abbrev one_used : SemTable
one_used = record {
  bm = record { num_bits = 10; num_words = 1; map = 1 ∷ [] };
  sem_tab = some first_sem ∷ replicate 9 none;
}

abbrev machine : Kernel
machine = booted (λ s. 1)

finds_ab : find one_used ab ≡ ok (some 4)
unfolding find_from test
finds_ab = refl

abbrev returned : Result (Bool × SemTable × Kernel) → Bool
returned (ok (b, t, k)) = b
returned (err fault) = false

creates_other : returned (create one_used machine (97 ∷ []) 2 5) ≡ true
unfolding create find_from test mark find_free_slot
creates_other = refl

ab_is_known : returned (create one_used machine ab 2 5) ≡ false
unfolding create find_from test mark find_free_slot
ab_is_known = refl

bit-zero : (k : ℕ) → bit 0 k ≡ false
bit-zero zero = refl
bit-zero (suc k) = bit-zero k

bit-one : (i : ℕ) → bit 1 i ≡ true → i ≡ 0
bit-one zero h = refl
bit-one (suc k) h = let z = bit-zero k in absurd cc

only_first : (i : ℕ) → i < 10 → marked one_used.bm i ≡ true → i ≡ 0
only_first i lt used =
    let word : i / 32 ≡ 0 = omega arith in
    let place : i % 32 ≡ i = omega arith in
    let same : marked one_used.bm i ≡ bit 1 i = rw (word, place) in bit-one i (sym same ∙ used)

one_used-IsTable : IsTable one_used
unfolding div_round_up
one_used-IsTable = record {
  valid = record { counted = refl; stored = refl; fits = omega arith };
  ten_bits = refl;
  ten_slots = refl;
  filled = λ i lt used. (first_sem, ap (get_elem? one_used.sem_tab) (only_first i lt used));
}

create-Created_example :
    (r : Bool × SemTable × Kernel) × (create one_used machine (97 ∷ []) 2 5 ≡ ok r)
    × Created one_used machine (97 ∷ []) 2 5 r
create-Created_example =
    create-Created one_used machine (97 ∷ []) 2 5 one_used-IsTable (omega arith)

main_runs : RunsAt (λ q. q ≡ outside) machine
main_runs = (0, record { status = running; point = outside }, refl, refl, refl, refl)

wait-signal-IsGood_example :
    ((b : Bool) × (k' : Kernel) × (wait one_used machine ab ≡ ok (b, k'))
      × Knows one_used ab b
      × IsGood k')
    × ((b : Bool) × (k' : Kernel) × (signal one_used machine ab ≡ ok (b, k'))
        × Knows one_used ab b
        × IsGood k')
wait-signal-IsGood_example =
    wait-signal-IsGood one_used machine ab one_used-IsTable (booted-IsGood (λ s. 1)) main_runs
