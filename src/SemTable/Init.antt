-- ===== src/SemTable/Init.antt =====
-- The table that the constructor of userprog/stable.cc makes.
use os_project2_nach_os.Base.{
  ℕ, zero, suc, ◌+◌, ◌<◌, ◌≡◌, refl, ap, ◌∙◌, Bool, false, List, Option, none, ok, replicate,
  length-replicate, arith,
}
use os_project2_nach_os.BitMap.Init.{init_all_clear}
use os_project2_nach_os.BitMap.Sets.{marked}
use os_project2_nach_os.SemTable.{SemTable, Sem, init, find}
use os_project2_nach_os.SemTable.Search.{IsTable, first_named, find_from-first_named}

-- Over slots that are all free the search finds nothing.
none_named :
    (rounds i : ℕ) (used : ℕ → Bool) (tab : List (Option Sem)) (name : List ℕ)
    → ((j : ℕ) → j < i + rounds → used j ≡ false)
    → first_named rounds i used tab name ≡ none
none_named zero i used tab name free = refl
none_named (suc rounds) i used tab name free =
    let here : used i ≡ false = free i (omega arith) in
    rw (here) (none_named rounds (i + 1) used tab name (λ j lt. free j (omega arith)))

-- Whatever the memory held, the constructor ends without a fault in a table in order, which
-- finds no name.
pub init-IsTable :
    (garbage : ℕ → ℕ)
    → (t : SemTable) × (init garbage ≡ ok t) × IsTable t × ((name : List ℕ) → find t name ≡ ok none)
unfolding init
init-IsTable garbage =
    let (bm, done, valid, ten, free) = init_all_clear garbage 10 in
    let t : SemTable = record { bm = bm; sem_tab = replicate 10 none } in
    let h : IsTable t = record {
      valid = valid;
      ten_bits = ten;
      ten_slots = length-replicate {A = Option Sem} 10 none;
      filled = λ i lt used. absurd (let f = free i lt in let z : ⊥ = cc in z);
    } in
    (
      t,
      rw (done),
      h,
      λ name.
          find_from-first_named 10 0 t name h refl
          ∙ ap ok (none_named 10 0 (marked bm) t.sem_tab name (λ j lt. free j lt)),
    )
