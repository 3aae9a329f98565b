-- ===== src/Interrupt/Due.antt =====
-- The loops of machine/interrupt.cc that fire the interrupts that are due.
use os_project2_nach_os.Base.{
  ℕ, zero, suc, ◌<◌, ◌≡◌, refl, sym, ap, ◌∙◌, subst, false, ◌&&◌, List, [], ◌∷◌, ok, ltb,
  Bool-cases, inl, inr, arith,
}
use os_project2_nach_os.Interrupt.{
  int_off, PendingInterrupt, Interrupt, Request, is_idle, is_timer, nothing_pending, put_pending,
  fire, check_if_due, fire_due,
}
use os_project2_nach_os.Interrupt.Calls.{left_by}
use os_project2_nach_os.Interrupt.Pending.{InOrder, one_if_due, due, put_pending-InOrder}
use os_project2_nach_os.Interrupt.Rounds.{
  HandlersAreLater, left_by-early, left_by-Fired, fire-Fired, IsQuiet, round_none, round_early,
  round_due, stops_at, goes_on, quits, fires, quits-idle, early-IsQuiet,
}

module _ {D : Type 0} (call : PendingInterrupt → D → List Request × D) where
  -- What the loop comes to from a state in order with enough rounds left.
  abbrev pub Ending : ℕ → D → Interrupt → Type 0
  Ending rounds d i =
      (d' : D) × (i' : Interrupt) × (fire_due call rounds d i ≡ ok (d', i'))
      × IsQuiet i i'
      × (is_idle i.status ≡ false → (d', i'.pending) ≡ left_by call i.total_ticks d i.pending)

  abbrev pub EndsIn : ℕ → Type 0
  EndsIn rounds =
      (d : D) (i : Interrupt)
      → InOrder i.pending
      → i.level ≡ int_off
      → due i.total_ticks i.pending < rounds
      → Ending rounds d i

  on_fire :
      HandlersAreLater call
      → (rounds : ℕ) (d : D) (i : Interrupt) → EndsIn rounds
      → InOrder i.pending
      → i.level ≡ int_off
      → due i.total_ticks i.pending < suc rounds
      → (e : PendingInterrupt) (es : List PendingInterrupt) → i.pending ≡ e ∷ es
      → ltb i.total_ticks e.when ≡ false
      → check_if_due call false d i ≡ fire call e d (record i { pending = es })
      → Ending (suc rounds) d i
  on_fire later rounds d i again order off enough e es at now round =
      let inner : InOrder (e ∷ es) = subst InOrder at order in
      let d1 = (call e d).1 in
      let (i1, done, f) = fire-Fired call later e d (record i { pending = es }) inner.1 in
      let one : one_if_due i.total_ticks e ≡ 1 = rw (now) in
      let all = ap (due i.total_ticks) at in
      let moved = ap (λ t. due t i1.pending) f.same_time in
      let left = f.left in
      let (d', i', rest, q, s) =
        again d1 i1 f.in_order (f.same_level ∙ off)
          (omega (arith, one, all, moved, left, enough)) in
      (
        d',
        i',
        goes_on call rounds d i d1 i1 (round ∙ done) ∙ rest,
        record {
          in_order = q.in_order;
          same_time = q.same_time ∙ f.same_time;
          same_status = q.same_status ∙ f.same_status;
          none_due = λ busy.
              subst (λ t. due t i'.pending ≡ 0) f.same_time
                (q.none_due (ap is_idle f.same_status ∙ busy));
        },
        λ busy.
            s (ap is_idle f.same_status ∙ busy)
            ∙ left_by-Fired call d (record i { pending = es }) i1 e es now f
            ∙ ap (left_by call i.total_ticks d) (sym at),
      )

  one_round :
      HandlersAreLater call
      → (rounds : ℕ) (d : D) (i : Interrupt) → EndsIn rounds
      → InOrder i.pending
      → i.level ≡ int_off
      → due i.total_ticks i.pending < suc rounds
      → (l : List PendingInterrupt) → i.pending ≡ l
      → Ending (suc rounds) d i
  one_round later rounds d i again order off enough [] at = (
    d,
    i,
    stops_at call rounds d i d i (round_none call d i off at),
    record {
      in_order = order;
      same_time = refl;
      same_status = refl;
      none_due = λ busy. ap (due i.total_ticks) at;
    },
    λ busy. (λ j. (d, at j)) ∙ ap (left_by call i.total_ticks d) (sym at),
  )
  one_round later rounds d i again order off enough (e ∷ es) at =
      elim (Bool-cases (ltb i.total_ticks e.when)) [
        | inl early ↦ (
          d,
          record i { pending = put_pending e es },
          stops_at call rounds d i d _ (round_early call d i e es off at early),
          early-IsQuiet i e es (subst InOrder at order) early,
          λ busy.
              sym (left_by-early call i.total_ticks d e es (subst InOrder at order) early)
              ∙ ap (left_by call i.total_ticks d) (sym at),
        )
        | inr now ↦
            elim (Bool-cases ((is_idle i.status && is_timer e.type) && nothing_pending es)) [
              | inl nothing ↦
                  let inner : InOrder (e ∷ es) = subst InOrder at order in
                  (
                    d,
                    record i { pending = put_pending e es },
                    stops_at call rounds d i d _ (
                        round_due call d i e es off at now
                        ∙ quits call e d (record i { pending = es }) nothing),
                    record {
                      in_order = put_pending-InOrder e es inner.1;
                      same_time = refl;
                      same_status = refl;
                      none_due = λ busy. absurd (
                          let c =
                            quits-idle (is_idle i.status) (is_timer e.type) (nothing_pending es)
                              nothing in
                          let z : ⊥ = cc in z);
                    },
                    λ busy. absurd (
                        let c =
                          quits-idle (is_idle i.status) (is_timer e.type) (nothing_pending es)
                            nothing in
                        let z : ⊥ = cc in z),
                  )
              | inr something ↦ on_fire later rounds d i again order off enough e es at now (
                  round_due call d i e es off at now
                  ∙ fires call e d (record i { pending = es }) something)
            ]
      ]

  -- With more rounds than interrupts that are due, the loop ends.
  pub fire_due-IsQuiet : HandlersAreLater call → (rounds : ℕ) → EndsIn rounds
  fire_due-IsQuiet later zero d i order off enough = elim enough [ ]
  fire_due-IsQuiet later (suc rounds) d i order off enough =
      one_round later rounds d i (fire_due-IsQuiet later rounds) order off enough i.pending refl
