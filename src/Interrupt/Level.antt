-- ===== src/Interrupt/Level.antt =====
-- SetLevel of machine/interrupt.cc.
use os_project2_nach_os.Base.{
  ℕ, ◌+◌, ◌<◌, ◌≡◌, refl, ◌∙◌, Bool, false, ◌&&◌, not, List, ok, Bool-cases, inl, inr,
  if◌then◌else◌, arith,
}
use os_project2_nach_os.Interrupt.{
  IntStatus, int_off, int_on, PendingInterrupt, Interrupt, Request, is_off, is_idle, tick_of,
  set_level,
}
use os_project2_nach_os.Interrupt.Pending.{InOrder, due}
use os_project2_nach_os.Interrupt.Rounds.{HandlersAreLater}
use os_project2_nach_os.Interrupt.Tick.{one_tick-IsTicked}

-- The time that a change of the level takes.
abbrev pub level_ticks : IntStatus → Interrupt → ℕ
level_ticks now i = if not (is_off now) && is_off i.level then tick_of i.status else 0

pub record IsSwitched (now : IntStatus) (i i' : Interrupt) : Type 0 where
  pub level : i'.level ≡ now
  pub time : i'.total_ticks ≡ i.total_ticks + level_ticks now i
  pub in_order : InOrder i'.pending

-- SetLevel outside handlers and outside IdleMode, with the pending interrupts in the order of their
-- times, handlers that ask only for positive times, and more rounds than interrupts that are due
-- after a tick, ends without an error. It returns the old level, the level is the new one, the
-- pending interrupts are in order, and the clock goes on by one tick if interrupts go from off to
-- on and does not move otherwise.
pub set_level-IsSwitched :
    {D : Type 0} (call : PendingInterrupt → D → List Request × D) (rounds : ℕ) (now : IntStatus)
    (d : D) (i : Interrupt)
    → HandlersAreLater call
    → InOrder i.pending
    → i.in_handler ≡ false
    → is_idle i.status ≡ false
    → due (i.total_ticks + tick_of i.status) i.pending < rounds
    → (yields : Bool) × (d' : D) × (i' : Interrupt) × (set_level call rounds now d i
        ≡ ok (i.level, yields, d', i'))
      × IsSwitched now i i'
unfolding set_level
set_level-IsSwitched call rounds int_off d i later order outside busy enough = (
  false,
  d,
  record i { level = int_off },
  refl,
  record { level = refl; time = omega arith; in_order = order },
)
set_level-IsSwitched call rounds int_on d i later order outside busy enough =
    elim (Bool-cases (is_off i.level)) [
      | inl off ↦
          let (yields, d', i', done, t) =
            one_tick-IsTicked call rounds d (record i { level = int_on }) later order busy enough in
          (
            yields,
            d',
            i',
            rw (off, done, outside),
            record { level = t.enabled; time = t.time ∙ rw (off); in_order = t.in_order },
          )
      | inr on ↦ (
        false,
        d,
        record i { level = int_on },
        rw (outside, on),
        record { level = refl; time = rw (on) (omega arith); in_order = order },
      )
    ]
