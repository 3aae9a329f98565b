-- ===== src/Interrupt/Rounds.antt =====
-- One round of CheckIfDue of machine/interrupt.cc, and what firing an interrupt leaves.
use os_project2_nach_os.Base.{
  ℕ, suc, ◌<◌, ◌≡◌, refl, ap, ◌∙◌, Bool, true, false, ◌&&◌, List, [], ◌∷◌, ok, err,
  assertion_failed, ltb, if◌then◌else◌, arith,
}
use os_project2_nach_os.Interrupt.{
  int_off, system_mode, PendingInterrupt, Interrupt, Request, is_off, is_idle, is_timer,
  nothing_pending, put_pending, fire, fire_or_quit, take_due, check_if_due, fire_due,
}
use os_project2_nach_os.Interrupt.Calls.{due_of, later_of, scheduled, left_by}
use os_project2_nach_os.Interrupt.Pending.{
  NoneBefore, InOrder, one_if_due, due, AreLater, put_pending-InOrder, due-put_pending,
  NoneBefore-due, serve-Served,
}

-- What one round leaves, when it fired the interrupt e and when it fired none.
pub record Fired (rs : List Request) (i : Interrupt) (es : List PendingInterrupt) (i' : Interrupt)
    : Type 0 where
  pub in_order : InOrder i'.pending
  pub same_time : i'.total_ticks ≡ i.total_ticks
  pub same_status : i'.status ≡ i.status
  pub same_level : i'.level ≡ i.level
  pub left : due i.total_ticks i'.pending ≡ due i.total_ticks es
  pub due_left : due_of i.total_ticks i'.pending ≡ due_of i.total_ticks es
  pub later_left :
      later_of i.total_ticks i'.pending ≡ scheduled i.total_ticks rs (later_of i.total_ticks es)

-- What the loop leaves.
pub record IsQuiet (i i' : Interrupt) : Type 0 where
  pub in_order : InOrder i'.pending
  pub same_time : i'.total_ticks ≡ i.total_ticks
  pub same_status : i'.status ≡ i.status
  pub none_due : is_idle i.status ≡ false → due i.total_ticks i'.pending ≡ 0

pub quits-idle : (b c d : Bool) → ((b && c) && d) ≡ true → b ≡ true
quits-idle true c d h = refl
quits-idle false c d h = h

pub early-IsQuiet :
    (i : Interrupt) (e : PendingInterrupt) (es : List PendingInterrupt)
    → InOrder (e ∷ es)
    → ltb i.total_ticks e.when ≡ true
    → IsQuiet i (record i { pending = put_pending e es })
early-IsQuiet i e es order early =
    let lt : i.total_ticks < e.when = ground (arith, early) in
    let a = NoneBefore-due i.total_ticks e.when es order.0 lt in
    let b : one_if_due i.total_ticks e ≡ 0 = rw (early) in
    record {
      in_order = put_pending-InOrder e es order.1;
      same_time = refl;
      same_status = refl;
      none_due = λ busy. omega (arith, a, b, due-put_pending i.total_ticks e es);
    }

none_due_of :
    (now t : ℕ) (xs : List PendingInterrupt) → NoneBefore t xs → now < t → due_of now xs ≡ []
none_due_of now t [] h lt = refl
none_due_of now t (x ∷ xs) h lt =
    let out : ltb now x.when ≡ true = (let le = h.0 in ground (arith, le)) in
    rw (out) (none_due_of now t xs h.1 lt)

all_later_of :
    (now t : ℕ) (xs : List PendingInterrupt) → NoneBefore t xs → now < t → later_of now xs ≡ xs
all_later_of now t [] h lt = refl
all_later_of now t (x ∷ xs) h lt =
    let out : ltb now x.when ≡ true = (let le = h.0 in ground (arith, le)) in
    rw (out) (ap (λ l. x ∷ l) (all_later_of now t xs h.1 lt))

module _ {D : Type 0} (call : PendingInterrupt → D → List Request × D) where
  -- Handlers ask only for interrupts at later times.
  abbrev pub HandlersAreLater : Type 0
  HandlersAreLater = (e : PendingInterrupt) (d : D) → AreLater (call e d).0

  -- When the first is not due, none is.
  pub left_by-early :
      (now : ℕ) (d : D) (e : PendingInterrupt) (es : List PendingInterrupt)
      → InOrder (e ∷ es)
      → ltb now e.when ≡ true
      → left_by call now d (e ∷ es) ≡ (d, put_pending e es)
  left_by-early now d e es order early =
      let lt : now < e.when = ground (arith, early) in
      rw (early, none_due_of now e.when es order.0 lt, all_later_of now e.when es order.0 lt) refl

  -- When the first is due, its handler is called first.
  pub left_by-Fired :
      (d : D) (i i' : Interrupt) (e : PendingInterrupt) (es : List PendingInterrupt)
      → ltb i.total_ticks e.when ≡ false
      → Fired (call e d).0 i es i'
      → left_by call i'.total_ticks (call e d).1 i'.pending ≡ left_by call i.total_ticks d (e ∷ es)
  left_by-Fired d i i' e es now f =
      ap (λ t. left_by call t (call e d).1 i'.pending) f.same_time
      ∙ rw (now, f.due_left, f.later_left) refl

  pub fire-Fired :
      HandlersAreLater
      → (e : PendingInterrupt) (d : D) (i : Interrupt) → InOrder i.pending
      → (i' : Interrupt) × (fire call e d i ≡ ok (true, (call e d).1, i'))
        × Fired (call e d).0 i i.pending i'
  unfolding fire
  fire-Fired later e d i order =
      let (i', done, s) =
        serve-Served (call e d).0 (record i { in_handler = true; status = system_mode }) (later e d)
          order refl in
      (
        record i' { status = i.status; in_handler = false },
        rw (done),
        record {
          in_order = s.in_order;
          same_time = s.same_time;
          same_status = refl;
          same_level = s.same_level;
          left = s.same_due;
          due_left = s.due_left;
          later_left = s.later_left;
        },
      )

  pub round_none :
      (d : D) (i : Interrupt)
      → i.level ≡ int_off
      → i.pending ≡ []
      → check_if_due call false d i ≡ ok (false, d, i)
  unfolding check_if_due take_due
  round_none d i off at = rw (off, at)

  pub round_early :
      (d : D) (i : Interrupt) (e : PendingInterrupt) (es : List PendingInterrupt)
      → i.level ≡ int_off
      → i.pending ≡ e ∷ es
      → ltb i.total_ticks e.when ≡ true
      → check_if_due call false d i ≡ ok (false, d, record i { pending = put_pending e es })
  unfolding check_if_due take_due
  round_early d i e es off at early =
      ap (λ s. if is_off s then take_due call false d i i.pending else err assertion_failed) off
      ∙ ap (take_due call false d i) at
      ∙ rw (early)

  pub round_due :
      (d : D) (i : Interrupt) (e : PendingInterrupt) (es : List PendingInterrupt)
      → i.level ≡ int_off
      → i.pending ≡ e ∷ es
      → ltb i.total_ticks e.when ≡ false
      → check_if_due call false d i ≡ fire_or_quit call e d (record i { pending = es })
  unfolding check_if_due take_due
  round_due d i e es off at now =
      ap (λ s. if is_off s then take_due call false d i i.pending else err assertion_failed) off
      ∙ ap (take_due call false d i) at
      ∙ rw (now)

  pub stops_at :
      (rounds : ℕ) (d : D) (i : Interrupt) (d' : D) (i' : Interrupt)
      → check_if_due call false d i ≡ ok (false, d', i')
      → fire_due call (suc rounds) d i ≡ ok (d', i')
  unfolding fire_due
  stops_at rounds d i d' i' round = rw (round)

  pub goes_on :
      (rounds : ℕ) (d : D) (i : Interrupt) (d' : D) (i' : Interrupt)
      → check_if_due call false d i ≡ ok (true, d', i')
      → fire_due call (suc rounds) d i ≡ fire_due call rounds d' i'
  unfolding fire_due
  goes_on rounds d i d' i' round = rw (round)

  -- The last interrupt is the timer's and nothing else is to do.
  pub quits :
      (e : PendingInterrupt) (d : D) (i : Interrupt)
      → ((is_idle i.status && is_timer e.type) && nothing_pending i.pending) ≡ true
      → fire_or_quit call e d i ≡ ok (false, d, record i { pending = put_pending e i.pending })
  unfolding fire_or_quit
  quits e d i nothing = rw (nothing)

  pub fires :
      (e : PendingInterrupt) (d : D) (i : Interrupt)
      → ((is_idle i.status && is_timer e.type) && nothing_pending i.pending) ≡ false
      → fire_or_quit call e d i ≡ fire call e d i
  unfolding fire_or_quit
  fires e d i something = rw (something)
