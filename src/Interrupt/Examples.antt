-- ===== src/Interrupt/Examples.antt =====
-- Tests and examples of the interrupts: a disk's handler schedules the timer, and the timer itself.
use os_project2_nach_os.Base.{
  ℕ, ◌+◌, ◌≡◌, refl, Bool, true, false, List, [], ◌∷◌, Result, ok, err, machine_halted, arith,
}
use os_project2_nach_os.Interrupt.{
  int_off, int_on, system_mode, timer_int, disk_int, PendingInterrupt, Interrupt, Request,
  schedules, yields_on_return, schedule, serve, fire, fire_or_quit, take_due, check_if_due,
  fire_due, one_tick, idle,
}
use os_project2_nach_os.Interrupt.Rounds.{HandlersAreLater}
use os_project2_nach_os.Interrupt.Tick.{IsTicked, IsIdled, one_tick-IsTicked, idle-IsIdled}

-- The devices' state counts the calls.
abbrev calls : PendingInterrupt → ℕ → List Request × ℕ
calls e d = (schedules 7 0 100 timer_int ∷ yields_on_return ∷ [], d + 1)

calls_later : HandlersAreLater calls
calls_later e d = (omega arith, tt)

abbrev disk_at : ℕ → PendingInterrupt
disk_at t = record { handler = 1; arg = 0; when = t; type = disk_int }

abbrev timer_at : ℕ → PendingInterrupt
timer_at t = record { handler = 7; arg = 0; when = t; type = timer_int }

abbrev running_at : ℕ → Interrupt
running_at now = record {
  level = int_on;
  pending = disk_at 50 ∷ disk_at 60 ∷ disk_at 90 ∷ [];
  in_handler = false;
  yield_on_return = false;
  status = system_mode;
  total_ticks = now;
  idle_ticks = 0;
  system_ticks = now;
  user_ticks = 0;
}

abbrev clock : Result (Bool × ℕ × Interrupt) → Bool × ℕ × ℕ
clock (ok (yields, d, i)) = (yields, d, i.total_ticks)
clock (err fault) = (false, 0, 0)

-- At 60 two of the three are due, and their handlers ask for a Yield.
tick_fires_two : clock (one_tick calls 4 0 (running_at 50)) ≡ (true, 2, 60)
unfolding one_tick fire_due check_if_due take_due fire_or_quit fire serve schedule
tick_fires_two = refl

-- Only the timer is left, so the machine halts.
idle_halts :
    idle calls 4 0 (record (running_at 50) { level = int_off; pending = timer_at 70 ∷ [] })
    ≡ err machine_halted
unfolding idle fire_due check_if_due take_due fire_or_quit fire serve schedule
idle_halts = refl

one_tick-IsTicked_example :
    (yields : Bool) × (d' : ℕ) × (i' : Interrupt) × (one_tick calls 4 0 (running_at 50)
      ≡ ok (yields, d', i'))
    × IsTicked calls 0 (running_at 50) d' i'
one_tick-IsTicked_example =
    one_tick-IsTicked calls 4 0 (running_at 50) calls_later
      ((omega arith, (omega arith, tt)), ((omega arith, tt), (tt, tt))) refl (omega arith)

idle-IsIdled_example :
    (d' : ℕ) × (i' : Interrupt) × (idle calls 4 0 (record (running_at 20) { level = int_off })
      ≡ ok (d', i'))
    × IsIdled 50 i'
idle-IsIdled_example =
    idle-IsIdled calls 4 0 (record (running_at 20) { level = int_off }) (disk_at 50)
      (disk_at 60 ∷ disk_at 90 ∷ []) calls_later refl refl
      ((omega arith, (omega arith, tt)), ((omega arith, tt), (tt, tt))) (omega arith) refl
      (omega arith)
