-- ===== src/Interrupt.antt =====
-- nachos/nachos-3.4/code/machine/interrupt.h and interrupt.cc: the simulated interrupts and the
-- clock. Pending interrupts are the list of items that SortedInsert of threads/list.cc keeps in the
-- order of their times. A handler is device code: the parameter `call` says, from the state of the
-- devices, which calls of Schedule and YieldOnReturn it makes and what the devices' state is then.
-- DelayedLoad(0, 0) before a handler changes no state of this component. Ticks do not wrap.
pub mod Calls
pub mod Pending
pub mod Rounds
pub mod Due
pub mod Tick
pub mod Level
mod Examples
use os_project2_nach_os.Base.{
  ℕ, zero, suc, ◌+◌, ◌-◌, Bool, true, false, ◌&&◌, not, List, [], ◌∷◌, Result, ok, err,
  assertion_failed, machine_halted, out_of_rounds, ◌>>=◌, ltb, ◌==◌, if◌then◌else◌,
}

pub data IntStatus : Type 0 where
  int_off int_on : IntStatus

pub data MachineStatus : Type 0 where
  idle_mode system_mode user_mode : MachineStatus

pub data IntType : Type 0 where
  timer_int disk_int console_write_int console_read_int network_send_int network_recv_int : IntType

pub record PendingInterrupt : Type 0 where
  pub handler : ℕ
  pub arg : ℕ
  pub when : ℕ
  pub type : IntType

pub record Interrupt : Type 0 where
  pub level : IntStatus
  pub pending : List PendingInterrupt
  pub in_handler : Bool
  pub yield_on_return : Bool
  pub status : MachineStatus
  pub total_ticks : ℕ
  pub idle_ticks : ℕ
  pub system_ticks : ℕ
  pub user_ticks : ℕ

-- What a handler asks for: Schedule(handler, arg, fromNow, type), or YieldOnReturn().
pub data Request : Type 0 where
  schedules : ℕ → ℕ → ℕ → IntType → Request
  yields_on_return : Request

-- Interrupt::Interrupt, with the clock of a new Statistics.
abbrev pub init : Interrupt
init = record {
  level = int_off;
  pending = [];
  in_handler = false;
  yield_on_return = false;
  status = system_mode;
  total_ticks = 0;
  idle_ticks = 0;
  system_ticks = 0;
  user_ticks = 0;
}

abbrev pub is_off : IntStatus → Bool
is_off int_off = true
is_off int_on = false

abbrev pub is_idle : MachineStatus → Bool
is_idle idle_mode = true
is_idle system_mode = false
is_idle user_mode = false

abbrev pub is_system : MachineStatus → Bool
is_system idle_mode = false
is_system system_mode = true
is_system user_mode = false

abbrev pub is_timer : IntType → Bool
is_timer timer_int = true
is_timer disk_int = false
is_timer console_write_int = false
is_timer console_read_int = false
is_timer network_send_int = false
is_timer network_recv_int = false

abbrev pub nothing_pending : List PendingInterrupt → Bool
nothing_pending [] = true
nothing_pending (e ∷ es) = false

-- pending->SortedInsert(e, e->when)
abbrev pub put_pending : PendingInterrupt → List PendingInterrupt → List PendingInterrupt
put_pending e [] = e ∷ []
put_pending e (x ∷ xs) = if ltb e.when x.when then e ∷ x ∷ xs else x ∷ put_pending e xs

unfoldable pub schedule : Interrupt → ℕ → ℕ → ℕ → IntType → Result Interrupt
schedule i handler arg from_now type =
    if ltb 0 from_now
    then ok (record i {
      pending =
          put_pending
            (record { handler = handler; arg = arg; when = i.total_ticks + from_now; type = type })
            i.pending;
    })
    else err assertion_failed

-- Interrupt::YieldOnReturn
abbrev pub ask_to_yield : Interrupt → Result Interrupt
ask_to_yield i =
    if i.in_handler then ok (record i { yield_on_return = true }) else err assertion_failed

unfoldable pub serve : List Request → Interrupt → Result Interrupt
unfolding schedule
serve [] i = ok i
serve (schedules handler arg from_now type ∷ rs) i =
    schedule i handler arg from_now type >>= serve rs
serve (yields_on_return ∷ rs) i = ask_to_yield i >>= serve rs

-- SystemTick and UserTick
abbrev pub tick_of : MachineStatus → ℕ
tick_of status = if is_system status then 10 else 1

abbrev pub advance : Interrupt → Interrupt
advance i =
    if is_system i.status
    then record i { total_ticks = i.total_ticks + 10; system_ticks = i.system_ticks + 10 }
    else record i { total_ticks = i.total_ticks + 1; user_ticks = i.user_ticks + 1 }

-- The clock goes on to a time.
abbrev pub skip_to : ℕ → Interrupt → Interrupt
skip_to when i = record i { idle_ticks = i.idle_ticks + (when - i.total_ticks); total_ticks = when }

module _ {D : Type 0} (call : PendingInterrupt → D → List Request × D) where
  -- From inHandler = TRUE to the end, with the first interrupt off the list.
  unfoldable pub fire : PendingInterrupt → D → Interrupt → Result (Bool × D × Interrupt)
  unfolding serve
  fire e d i =
      let (requests, d') = call e d in
      serve requests (record i { in_handler = true; status = system_mode }) >>= λ i'.
      ok (true, d', record i' { status = i.status; in_handler = false })

  -- What follows SortedRemove and the clock, for the interrupt e.
  unfoldable pub fire_or_quit : PendingInterrupt → D → Interrupt → Result (Bool × D × Interrupt)
  unfolding fire
  fire_or_quit e d i =
      if (is_idle i.status && is_timer e.type) && nothing_pending i.pending
      then ok (false, d, record i { pending = put_pending e i.pending })
      else fire e d i

  unfoldable pub take_due :
      Bool → D → Interrupt → List PendingInterrupt → Result (Bool × D × Interrupt)
  unfolding fire_or_quit
  take_due advance_clock d i [] = ok (false, d, i)
  take_due advance_clock d i (e ∷ es) =
      if ltb i.total_ticks e.when
      then (if advance_clock
          then fire_or_quit e d (skip_to e.when (record i { pending = es }))
          else ok (false, d, record i { pending = put_pending e es }))
      else fire_or_quit e d (record i { pending = es })

  unfoldable pub check_if_due : Bool → D → Interrupt → Result (Bool × D × Interrupt)
  unfolding take_due
  check_if_due advance_clock d i =
      if is_off i.level then take_due advance_clock d i i.pending else err assertion_failed

  -- while (CheckIfDue(FALSE)) ;
  unfoldable pub fire_due : ℕ → D → Interrupt → Result (D × Interrupt)
  unfolding check_if_due
  fire_due zero d i = err out_of_rounds
  fire_due (suc rounds) d i = check_if_due false d i >>= λ (fired, d', i').
      let later = fire_due rounds d' i' in if fired then later else ok (d', i')

  -- Interrupt::OneTick; the Boolean says that currentThread->Yield() is called at its end.
  unfoldable pub one_tick : ℕ → D → Interrupt → Result (Bool × D × Interrupt)
  unfolding fire_due
  one_tick rounds d i = fire_due rounds d (record (advance i) { level = int_off }) >>= λ (d', i').
      ok (i'.yield_on_return, d', record i' { level = int_on; yield_on_return = false })

  -- Interrupt::Idle
  unfoldable pub idle : ℕ → D → Interrupt → Result (D × Interrupt)
  unfolding check_if_due fire_due
  idle rounds d i = check_if_due true d (record i { status = idle_mode }) >>= λ (fired, d', i').
      let others = fire_due rounds d' i' in
      if fired
      then (others >>= λ (d2, i2).
          ok (d2, record i2 { yield_on_return = false; status = system_mode }))
      else err machine_halted

  -- Interrupt::SetLevel: the old level, and whether OneTick's Yield is called.
  unfoldable pub set_level :
      ℕ → IntStatus → D → Interrupt → Result (IntStatus × Bool × D × Interrupt)
  unfolding one_tick
  set_level rounds now d i =
      let changed : Interrupt = record i { level = now } in
      let ticked = one_tick rounds d changed in
      if not (is_off now) && i.in_handler
      then err assertion_failed
      else if not (is_off now) && is_off i.level
      then (ticked >>= λ (yields, d', i'). ok (i.level, yields, d', i'))
      else ok (i.level, false, d, changed)
