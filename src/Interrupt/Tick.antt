-- ===== src/Interrupt/Tick.antt =====
-- OneTick and Idle of machine/interrupt.cc.
use os_project2_nach_os.Base.{
  ℕ, ◌+◌, ◌<◌, ◌≡◌, refl, sym, ap, ◌∙◌, subst, Bool, true, false, ◌&&◌, List, ◌∷◌, ok, err,
  assertion_failed, ltb, Bool-cases, inl, inr, if◌then◌else◌, arith,
}
use os_project2_nach_os.Interrupt.{
  int_off, int_on, idle_mode, system_mode, PendingInterrupt, Interrupt, Request, is_off, is_idle,
  is_system, is_timer, nothing_pending, tick_of, advance, skip_to, fire, fire_or_quit, take_due,
  check_if_due, one_tick, idle,
}
use os_project2_nach_os.Interrupt.Calls.{left_by}
use os_project2_nach_os.Interrupt.Pending.{InOrder, due}
use os_project2_nach_os.Interrupt.Rounds.{HandlersAreLater, fire-Fired}
use os_project2_nach_os.Interrupt.Due.{fire_due-IsQuiet}

-- What a tick leaves of the devices' state d and the interrupts i.
pub record IsTicked {D : Type 0} (call : PendingInterrupt → D → List Request × D) (d : D)
    (i : Interrupt) (d' : D) (i' : Interrupt) : Type 0 where
  pub time : i'.total_ticks ≡ i.total_ticks + tick_of i.status
  pub all_called : (d', i'.pending) ≡ left_by call (i.total_ticks + tick_of i.status) d i.pending
  pub none_due : due i'.total_ticks i'.pending ≡ 0
  pub in_order : InOrder i'.pending
  pub enabled : i'.level ≡ int_on
  pub same_status : i'.status ≡ i.status

advance_time : (i : Interrupt) → (advance i).total_ticks ≡ i.total_ticks + tick_of i.status
advance_time i = elim (Bool-cases (is_system i.status)) [ inl s ↦ rw (s) | inr s ↦ rw (s) ]

advance_pending : (i : Interrupt) → (advance i).pending ≡ i.pending
advance_pending i = elim (Bool-cases (is_system i.status)) [ inl s ↦ rw (s) | inr s ↦ rw (s) ]

advance_status : (i : Interrupt) → (advance i).status ≡ i.status
advance_status i = elim (Bool-cases (is_system i.status)) [ inl s ↦ rw (s) | inr s ↦ rw (s) ]

-- OneTick outside IdleMode, with the pending interrupts in the order of their times, with handlers
-- that ask only for positive times, and with more rounds than interrupts that are due after the
-- tick, ends without an error. The clock has gone on by one tick of the machine's mode, whatever
-- the handlers asked for. The devices and the list of pending interrupts are what the handlers of
-- the interrupts that are due after the tick leave, each called once and in the order of the list:
-- the interrupts that were later, with those that these handlers schedule put in, and the first one
-- taken off and put back. None of them is due, they are in order, and interrupts are on.
pub one_tick-IsTicked :
    {D : Type 0} (call : PendingInterrupt → D → List Request × D) (rounds : ℕ) (d : D)
    (i : Interrupt)
    → HandlersAreLater call
    → InOrder i.pending
    → is_idle i.status ≡ false
    → due (i.total_ticks + tick_of i.status) i.pending < rounds
    → (yields : Bool) × (d' : D) × (i' : Interrupt) × (one_tick call rounds d i
        ≡ ok (yields, d', i'))
      × IsTicked call d i d' i'
unfolding one_tick
one_tick-IsTicked call rounds d i later order busy enough =
    let j : Interrupt = record (advance i) { level = int_off } in
    let (d', i', done, q, s) =
      fire_due-IsQuiet call later rounds d j (subst InOrder (sym (advance_pending i)) order) refl (
        let a = ap (λ t. due t (advance i).pending) (advance_time i) in
        let b = ap (due (i.total_ticks + tick_of i.status)) (advance_pending i) in
        omega (arith, a, b, enough)) in
    (
      i'.yield_on_return,
      d',
      record i' { level = int_on; yield_on_return = false },
      rw (done),
      record {
        time = q.same_time ∙ advance_time i;
        all_called =
            s (ap is_idle (advance_status i) ∙ busy)
            ∙ ap (λ t. left_by call t d (advance i).pending) (advance_time i)
            ∙ ap (left_by call (i.total_ticks + tick_of i.status) d) (advance_pending i);
        none_due =
            ap (λ t. due t i'.pending) q.same_time
            ∙ q.none_due (ap is_idle (advance_status i) ∙ busy);
        in_order = q.in_order;
        enabled = refl;
        same_status = q.same_status ∙ advance_status i;
      },
    )

-- What Idle leaves when its first interrupt is to occur at a time.
pub record IsIdled (when : ℕ) (i' : Interrupt) : Type 0 where
  pub time : i'.total_ticks ≡ when
  pub in_order : InOrder i'.pending
  pub status : i'.status ≡ system_mode
  pub no_yield : i'.yield_on_return ≡ false

first_fires :
    {D : Type 0} (call : PendingInterrupt → D → List Request × D) (d : D) (i : Interrupt)
    (e : PendingInterrupt) (es : List PendingInterrupt)
    → i.level ≡ int_off
    → i.pending ≡ e ∷ es
    → ltb i.total_ticks e.when ≡ true
    → (is_timer e.type && nothing_pending es) ≡ false
    → check_if_due call true d (record i { status = idle_mode })
      ≡ fire call e d (skip_to e.when (record i { status = idle_mode; pending = es }))
unfolding check_if_due take_due fire_or_quit
first_fires call d i e es off at early something =
    let j : Interrupt = record i { status = idle_mode } in
    ap (λ s. if is_off s then take_due call true d j i.pending else err assertion_failed) off
    ∙ ap (take_due call true d j) at
    ∙ rw (early, something)

-- Idle with interrupts off and the pending interrupts in order, the first of them at a later time
-- and not just the timer's, with handlers that ask only for positive times, and with more rounds
-- than other interrupts that are due at that time, returns to the kernel without halting it. The
-- clock then stands at exactly the time of that interrupt, the rest is in order, and no Yield is
-- asked for.
pub idle-IsIdled :
    {D : Type 0} (call : PendingInterrupt → D → List Request × D) (rounds : ℕ) (d : D)
    (i : Interrupt) (e : PendingInterrupt) (es : List PendingInterrupt)
    → HandlersAreLater call
    → i.level ≡ int_off
    → i.pending ≡ e ∷ es
    → InOrder (e ∷ es)
    → i.total_ticks < e.when
    → (is_timer e.type && nothing_pending es) ≡ false
    → due e.when es < rounds
    → (d' : D) × (i' : Interrupt) × (idle call rounds d i ≡ ok (d', i')) × IsIdled e.when i'
unfolding idle
idle-IsIdled call rounds d i e es later off at order early something enough =
    let j : Interrupt = skip_to e.when (record i { status = idle_mode; pending = es }) in
    let (i1, done, f) = fire-Fired call later e d j order.1 in
    let (d', i', rest, q, _) =
      fire_due-IsQuiet call later rounds (call e d).1 i1 f.in_order (f.same_level ∙ off) (
        let a = ap (λ t. due t i1.pending) f.same_time in
        let b = f.left in omega (arith, a, b, enough)) in
    let first = first_fires call d i e es off at (ground (arith, early)) something in
    (
      d',
      record i' { yield_on_return = false; status = system_mode },
      rw (first ∙ done, rest),
      record {
        time = q.same_time ∙ f.same_time;
        in_order = q.in_order;
        status = refl;
        no_yield = refl;
      },
    )
