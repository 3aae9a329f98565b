-- ===== src/SemCalls/Names.antt =====
-- A name that CreateSemaphore has taken, in Up and in Down.
use os_project2_nach_os.Base.{
  ℕ, ◌+◌, ◌-◌, ◌%◌, ◌^◌, ◌≤◌, ◌<◌, ◌≡◌, refl, sym, ap, ◌∙◌, subst, Bool, true, false, List, [],
  Option, none, some, ok, length, ◌==◌, Bool-cases, inl, inr, arith,
}
use mathlib.Core.Path.{fun_ext}
use os_project2_nach_os.Threads.{outside, Thread, Semaphore, runs, Kernel, put, p, v}
use os_project2_nach_os.Threads.State.{RunsAt}
use os_project2_nach_os.SemTable.{SemTable, strcmp_eq, find, new_semaphore, wait, signal}
use os_project2_nach_os.SemTable.Search.{IsTable}
use os_project2_nach_os.SemTable.Created.{Created, known, no_slot, made, create-Created}
use os_project2_nach_os.UserMemory.{string_at}
use os_project2_nach_os.FileCalls.{minus_one}
use os_project2_nach_os.SemCalls.Strings.{string_at_short, string_at_long}
use os_project2_nach_os.SemCalls.{
  SemState, create_limit, use_limit, answer, handle_create_semaphore, handle_up, handle_down,
}

-- What Create has made, if its answer is 0.
record IsMade (t : SemTable) (k : Kernel) (name : List ℕ) (initial fresh : ℕ)
    (r : Bool × SemTable × Kernel) : Type 0 where
  done : r.0 ≡ true
  kernel : r.2 ≡ new_semaphore k fresh initial
  found : find r.1 name ≡ ok (some fresh)
  others : (other : List ℕ) → strcmp_eq other name ≡ false → find r.1 other ≡ find t other

Created-IsMade :
    {t : SemTable} {k : Kernel} {name : List ℕ} {initial fresh : ℕ} {r : Bool × SemTable × Kernel}
    → Created t k name initial fresh r
    → answer r.0 ≡ 0
    → IsMade t k name initial fresh r
Created-IsMade (known s f) a = absurd (omega (arith, a))
Created-IsMade (no_slot f all) a = absurd (omega (arith, a))
Created-IsMade (made f h there others) a = record {
  done = refl;
  kernel = refl;
  found = there;
  others = others;
}

-- What CreateSemaphore leaves, if its answer is 0.
created :
    (fresh r4 r5 : ℕ) (s s₁ : SemState)
    → IsTable s.sems
    → length (string_at s.user r4 create_limit) < 50
    → handle_create_semaphore fresh r4 r5 s ≡ ok s₁
    → s₁.r2 ≡ 0
    → (t : SemTable) × (record s { sems = t; kernel = new_semaphore s.kernel fresh r5; r2 = 0 }
        ≡ s₁)
      × (find t (string_at s.user r4 create_limit) ≡ ok (some fresh))
      × ((other : List ℕ)
          → strcmp_eq other (string_at s.user r4 create_limit) ≡ false
          → find t other ≡ find s.sems other)
unfolding handle_create_semaphore
created fresh r4 r5 s s₁ h short e zero_ =
    let (r, e', c) =
      create-Created s.sems s.kernel (string_at s.user r4 create_limit) r5 fresh h short in
    let left : SemState = record s { sems = r.1; kernel = r.2; r2 = answer r.0 } in
    let same : left ≡ s₁ = cc (rw e' at e) in
    let m = Created-IsMade c (ap (λ x. x.r2) same ∙ zero_) in
    (
      r.1,
      (λ i. record s { sems = r.1; kernel = sym m.kernel i; r2 = answer (sym m.done i) }) ∙ same,
      m.found,
      m.others,
    )

-- A thread in its own code, and a semaphore that P leaves as it was before V.
threads_same :
    (threads : ℕ → Option Thread) (t : ℕ) (x : Thread)
    → threads t ≡ some x
    → x.point ≡ outside
    → put threads t (some (record x { point = outside })) ≡ threads
threads_same threads t x at own = fun_ext λ u. elim (Bool-cases (u == t)) [
  | inl e ↦
      let here : u ≡ t = ground arith in
      rw e (ap (λ q. some (record x { point = q })) (sym own) ∙ sym at ∙ ap threads (sym here))
  | inr e ↦ rw e refl
]

semaphores_same :
    (semaphores : ℕ → Semaphore) (s : ℕ) (y z : Semaphore)
    → z ≡ semaphores s
    → put (put semaphores s y) s z ≡ semaphores
semaphores_same semaphores s y z same = fun_ext λ u. elim (Bool-cases (u == s)) [
  | inl e ↦ let here : u ≡ s = ground arith in rw e (same ∙ ap semaphores (sym here))
  | inr e ↦ rw e refl
]

-- An int that is not negative and not the largest.
no_wrap : (n : ℕ) → n + 1 < 2 ^ 31 → (n + 1) % 2 ^ 32 ≡ n + 1
no_wrap n lt = omega arith

sub_one : (n : ℕ) → n + 1 < 2 ^ 31 → (n + 1) % 2 ^ 32 - 1 ≡ n
sub_one n lt = omega arith

-- V of a semaphore on which nobody waits, and P after it.
abbrev raised : Kernel → ℕ → Kernel
raised k i = record k {
  semaphores =
      put k.semaphores i (record { value = ((k.semaphores i).value + 1) % 2 ^ 32; queue = [] });
}

v-raised : (k : Kernel) (i : ℕ) → (k.semaphores i).queue ≡ [] → v k i ≡ ok (raised k i)
unfolding v
v-raised k i nobody = rw nobody refl

p-raised :
    (k : Kernel) (i : ℕ)
    → (k.semaphores i).value + 1 < 2 ^ 31
    → (k.semaphores i).queue ≡ []
    → RunsAt (λ q. q ≡ outside) k
    → p (raised k i) i ≡ ok k
unfolding p
p-raised k i small nobody (t, x, on_cpu, there, is_running, own) =
    let y : Semaphore = record { value = ((k.semaphores i).value + 1) % 2 ^ 32; queue = [] } in
    let z : Semaphore = record { value = ((k.semaphores i).value + 1) % 2 ^ 32 - 1; queue = [] } in
    let self : (i == i) ≡ true = ground arith in
    let some_left : (((k.semaphores i).value + 1) % 2 ^ 32 == 0) ≡ false =
      ground (arith, no_wrap (k.semaphores i).value small) in
    let back : z ≡ k.semaphores i =
      λ j. record { value = sub_one (k.semaphores i).value small j; queue = sym nobody j } in
    rw (self, some_left, on_cpu, there)
      (λ j. ok (record k {
        semaphores = semaphores_same k.semaphores i y z back j;
        threads = threads_same k.threads t x there own j;
        cpu = runs t;
      }))

-- Up and then Down, where nobody waits.
up_down :
    (s : SemState) (r4 i : ℕ)
    → find s.sems (string_at s.user r4 use_limit) ≡ ok (some i)
    → (s.kernel.semaphores i).value + 1 < 2 ^ 31
    → (s.kernel.semaphores i).queue ≡ []
    → RunsAt (λ q. q ≡ outside) s.kernel
    → (s₂ : SemState) × (handle_up r4 s ≡ ok s₂)
      × (s₂.r2 ≡ 0)
      × ((s₂.kernel.semaphores i).value ≡ (s.kernel.semaphores i).value + 1)
      × (handle_down r4 s₂ ≡ ok (record s { r2 = 0 }))
unfolding handle_up handle_down signal wait
up_down s r4 i at small nobody now =
    let self : (i == i) ≡ true = ground arith in
    (
      record s { kernel = raised s.kernel i; r2 = 0 },
      rw (at, v-raised s.kernel i nobody) refl,
      refl,
      rw self (no_wrap (s.kernel.semaphores i).value small),
      rw (at, p-raised s.kernel i small nobody now) refl,
    )

-- A program creates a semaphore, whose name has at most 33 bytes, with an initial value that is not
-- negative and less than the largest int. If
-- CreateSemaphore answers 0, then Up of the name answers 0 and makes the value one larger, and Down
-- after it answers 0 without waiting and leaves everything as it was after CreateSemaphore. The
-- table is in order, and the calling thread runs its own code.
pub create-up-down :
    (fresh r4 r5 : ℕ) (s s₁ : SemState)
    → IsTable s.sems
    → RunsAt (λ q. q ≡ outside) s.kernel
    → length (string_at s.user r4 create_limit) ≤ use_limit
    → r5 + 1 < 2 ^ 31
    → handle_create_semaphore fresh r4 r5 s ≡ ok s₁
    → s₁.r2 ≡ 0
    → (s₂ : SemState) × (handle_up r4 s₁ ≡ ok s₂)
      × (s₂.r2 ≡ 0)
      × ((s₁.kernel.semaphores fresh).value ≡ r5)
      × ((s₂.kernel.semaphores fresh).value ≡ r5 + 1)
      × (handle_down r4 s₂ ≡ ok s₁)
create-up-down fresh r4 r5 s s₁ h now short small e answered =
    let (t, same, found, others) = created fresh r4 r5 s s₁ h (omega arith) e answered in
    let self : (fresh == fresh) ≡ true = ground arith in
    let k : Kernel = new_semaphore s.kernel fresh r5 in
    let u : SemState = record s { sems = t; kernel = k; r2 = 0 } in
    let at : find t (string_at s.user r4 use_limit) ≡ ok (some fresh) =
      ap (find t) (string_at_short s.user r4 use_limit create_limit (omega arith) short) ∙ found in
    let start : (k.semaphores fresh) ≡ record { value = r5; queue = [] } = rw self refl in
    let (s₂, ups, zero_, up, downs) =
      up_down u r4 fresh at (subst (λ y. y.value + 1 < 2 ^ 31) (sym start) small)
        (ap (λ y. y.queue) start) now in
    subst
      (λ w.
        (s₂ : SemState) × (handle_up r4 w ≡ ok s₂)
        × (s₂.r2 ≡ 0)
        × ((w.kernel.semaphores fresh).value ≡ r5)
        × ((s₂.kernel.semaphores fresh).value ≡ r5 + 1)
        × (handle_down r4 s₂ ≡ ok w))
      same
      (
        s₂,
        ups,
        zero_,
        ap (λ y. y.value) start,
        up ∙ ap (λ n. n + 1) (ap (λ y. y.value) start),
        downs,
      )

-- A program creates a semaphore whose name has 34 to 49 bytes. If CreateSemaphore answers 0 and no
-- semaphore has the first 33 bytes for its name, then Up and Down of the name answer -1 and change
-- nothing else: the program cannot use the semaphore. The table is in order.
pub create_long_name :
    (fresh r4 r5 : ℕ) (s s₁ : SemState)
    → IsTable s.sems
    → use_limit < length (string_at s.user r4 create_limit)
    → length (string_at s.user r4 create_limit) < 50
    → find s.sems (string_at s.user r4 use_limit) ≡ ok none
    → handle_create_semaphore fresh r4 r5 s ≡ ok s₁
    → s₁.r2 ≡ 0
    → (handle_up r4 s₁ ≡ ok (record s₁ { r2 = minus_one }))
      × (handle_down r4 s₁ ≡ ok (record s₁ { r2 = minus_one }))
unfolding handle_up handle_down signal wait
create_long_name fresh r4 r5 s s₁ h long short unknown e answered =
    let (t, same, found, others) = created fresh r4 r5 s s₁ h short e answered in
    let still : find t (string_at s.user r4 use_limit) ≡ ok none =
      others (string_at s.user r4 use_limit) (string_at_long s.user r4 use_limit create_limit long)
      ∙ unknown in
    subst
      (λ w.
        (handle_up r4 w ≡ ok (record w { r2 = minus_one }))
        × (handle_down r4 w ≡ ok (record w { r2 = minus_one })))
      same (rw still refl, rw still refl)
