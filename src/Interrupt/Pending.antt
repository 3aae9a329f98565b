-- ===== src/Interrupt/Pending.antt =====
-- The list of pending interrupts of machine/interrupt.cc: its order, and how many of it are due.
use os_project2_nach_os.Base.{
  ℕ, ◌+◌, ◌≤◌, ◌<◌, ◌≡◌, refl, ap, ◌∙◌, true, List, [], ◌∷◌, ok, ltb, Bool-cases, inl, inr,
  if◌then◌else◌, arith,
}
use os_project2_nach_os.Interrupt.{
  PendingInterrupt, Interrupt, Request, schedules, yields_on_return, put_pending, schedule, serve,
}
use os_project2_nach_os.Interrupt.Calls.{
  due_of, later_of, scheduled, due_of-put_pending, later_of-put_pending,
}

abbrev pub NoneBefore : ℕ → List PendingInterrupt → Type 0
NoneBefore t [] = Unit
NoneBefore t (x ∷ xs) = (t ≤ x.when) × NoneBefore t xs

-- In the order of their times.
abbrev pub InOrder : List PendingInterrupt → Type 0
InOrder [] = Unit
InOrder (x ∷ xs) = NoneBefore x.when xs × InOrder xs

abbrev pub one_if_due : ℕ → PendingInterrupt → ℕ
one_if_due now x = if ltb now x.when then 0 else 1

-- How many are due at a time.
abbrev pub due : ℕ → List PendingInterrupt → ℕ
due now [] = 0
due now (x ∷ xs) = one_if_due now x + due now xs

NoneBefore-put_pending :
    (t : ℕ) (e : PendingInterrupt) (xs : List PendingInterrupt)
    → t ≤ e.when
    → NoneBefore t xs
    → NoneBefore t (put_pending e xs)
NoneBefore-put_pending t e [] le h = (le, tt)
NoneBefore-put_pending t e (x ∷ xs) le h = elim (Bool-cases (ltb e.when x.when)) [
  | inl before ↦ rw (before) (le, h)
  | inr behind ↦ rw (behind) (h.0, NoneBefore-put_pending t e xs le h.1)
]

NoneBefore-earlier :
    (t u : ℕ) (xs : List PendingInterrupt) → t ≤ u → NoneBefore u xs → NoneBefore t xs
NoneBefore-earlier t u [] le h = tt
NoneBefore-earlier t u (x ∷ xs) le h = (omega arith, NoneBefore-earlier t u xs le h.1)

pub put_pending-InOrder :
    (e : PendingInterrupt) (xs : List PendingInterrupt) → InOrder xs → InOrder (put_pending e xs)
put_pending-InOrder e [] h = (tt, tt)
put_pending-InOrder e (x ∷ xs) h = elim (Bool-cases (ltb e.when x.when)) [
  | inl before ↦
      let le : e.when ≤ x.when = ground (arith, before) in
      rw (before) ((le, NoneBefore-earlier e.when x.when xs le h.0), h)
  | inr behind ↦
      let le : x.when ≤ e.when = ground (arith, behind) in
      rw (behind) (NoneBefore-put_pending x.when e xs le h.0, put_pending-InOrder e xs h.1)
]

pub due-put_pending :
    (now : ℕ) (e : PendingInterrupt) (xs : List PendingInterrupt)
    → due now (put_pending e xs) ≡ one_if_due now e + due now xs
due-put_pending now e [] = refl
due-put_pending now e (x ∷ xs) = elim (Bool-cases (ltb e.when x.when)) [
  | inl before ↦ rw (before)
  | inr behind ↦ rw (behind) (omega (arith, due-put_pending now e xs))
]

pub NoneBefore-due :
    (now t : ℕ) (xs : List PendingInterrupt) → NoneBefore t xs → now < t → due now xs ≡ 0
NoneBefore-due now t [] h lt = refl
NoneBefore-due now t (x ∷ xs) h lt =
    let out : ltb now x.when ≡ true = (let le = h.0 in ground (arith, le)) in
    let one : one_if_due now x ≡ 0 = rw (out) in omega (arith, one, NoneBefore-due now t xs h.1 lt)

-- fromNow > 0
abbrev pub AreLater : List Request → Type 0
AreLater [] = Unit
AreLater (schedules handler arg from_now type ∷ rs) = (0 < from_now) × AreLater rs
AreLater (yields_on_return ∷ rs) = AreLater rs

-- What a handler leaves of the interrupts.
pub record Served (rs : List Request) (i i' : Interrupt) : Type 0 where
  pub in_order : InOrder i'.pending
  pub same_time : i'.total_ticks ≡ i.total_ticks
  pub same_due : due i.total_ticks i'.pending ≡ due i.total_ticks i.pending
  pub same_level : i'.level ≡ i.level
  pub due_left : due_of i.total_ticks i'.pending ≡ due_of i.total_ticks i.pending
  pub later_left :
      later_of i.total_ticks i'.pending
      ≡ scheduled i.total_ticks rs (later_of i.total_ticks i.pending)

-- Calls of Schedule with positive times, and of YieldOnReturn, inside a handler.
pub serve-Served :
    (rs : List Request) (i : Interrupt)
    → AreLater rs
    → InOrder i.pending
    → i.in_handler ≡ true
    → (i' : Interrupt) × (serve rs i ≡ ok i') × Served rs i i'
unfolding serve schedule
serve-Served [] i later order inside = (
  i,
  refl,
  record {
    in_order = order;
    same_time = refl;
    same_due = refl;
    same_level = refl;
    due_left = refl;
    later_left = refl;
  },
)
serve-Served (schedules handler arg from_now type ∷ rs) i later order inside =
    let e : PendingInterrupt = record {
      handler = handler;
      arg = arg;
      when = i.total_ticks + from_now;
      type = type;
    } in
    let ahead = later.0 in
    let positive : ltb 0 from_now ≡ true = ground (arith, ahead) in
    let not_due : ltb i.total_ticks (i.total_ticks + from_now) ≡ true = ground (arith, ahead) in
    let (i', done, s) =
      serve-Served rs (record i { pending = put_pending e i.pending }) later.1
        (put_pending-InOrder e i.pending order) inside in
    let one : one_if_due i.total_ticks e ≡ 0 = rw (not_due) in
    (
      i',
      rw (positive) done,
      record {
        in_order = s.in_order;
        same_time = s.same_time;
        same_due =
            let a = s.same_due in
            let b = due-put_pending i.total_ticks e i.pending in omega (arith, a, b, one);
        same_level = s.same_level;
        due_left = s.due_left ∙ due_of-put_pending i.total_ticks e i.pending not_due;
        later_left =
            s.later_left
            ∙ ap (scheduled i.total_ticks rs)
                (later_of-put_pending i.total_ticks e i.pending not_due);
      },
    )
serve-Served (yields_on_return ∷ rs) i later order inside =
    let (i', done, s) =
      serve-Served rs (record i { in_handler = true; yield_on_return = true }) later order refl in
    (
      i',
      rw (inside) done,
      record {
        in_order = s.in_order;
        same_time = s.same_time;
        same_due = s.same_due;
        same_level = s.same_level;
        due_left = s.due_left;
        later_left = s.later_left;
      },
    )
