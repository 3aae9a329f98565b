-- ===== src/Interrupt/Calls.antt =====
-- The handlers that the loop of CheckIfDue in machine/interrupt.cc calls, told without the loop: all
-- that are due, one after the other, and what they leave pending.
use os_project2_nach_os.Base.{
  ℕ, ◌+◌, ◌≡◌, refl, true, List, [], ◌∷◌, ltb, Bool-cases, inl, inr, if◌then◌else◌, arith,
}
use os_project2_nach_os.Interrupt.{
  PendingInterrupt, Request, schedules, yields_on_return, put_pending,
}

-- The interrupts that are due at a time, and the later ones.
abbrev pub due_of : ℕ → List PendingInterrupt → List PendingInterrupt
due_of now [] = []
due_of now (x ∷ xs) = if ltb now x.when then due_of now xs else x ∷ due_of now xs

abbrev pub later_of : ℕ → List PendingInterrupt → List PendingInterrupt
later_of now [] = []
later_of now (x ∷ xs) = if ltb now x.when then x ∷ later_of now xs else later_of now xs

-- A list with the interrupts that a handler schedules.
abbrev pub scheduled : ℕ → List Request → List PendingInterrupt → List PendingInterrupt
scheduled now [] l = l
scheduled now (schedules handler arg from_now type ∷ rs) l =
    scheduled now rs
      (put_pending (record { handler = handler; arg = arg; when = now + from_now; type = type }) l)
scheduled now (yields_on_return ∷ rs) l = scheduled now rs l

-- CheckIfDue takes the first interrupt off and, when it is not due, puts it back.
abbrev pub requeued : List PendingInterrupt → List PendingInterrupt
requeued [] = []
requeued (e ∷ es) = put_pending e es

-- The handlers of a list of interrupts, called in order, over the interrupts that stay pending.
abbrev pub called :
    {D : Type 0}
    → (PendingInterrupt → D → List Request × D)
    → ℕ
    → D
    → List PendingInterrupt
    → List PendingInterrupt
    → D × List PendingInterrupt
called call now d [] l = (d, requeued l)
called call now d (e ∷ es) l = called call now (call e d).1 es (scheduled now (call e d).0 l)

-- The devices and the pending interrupts after all that are due.
abbrev pub left_by :
    {D : Type 0}
    → (PendingInterrupt → D → List Request × D)
    → ℕ
    → D
    → List PendingInterrupt
    → D × List PendingInterrupt
left_by call now d pending = called call now d (due_of now pending) (later_of now pending)

pub due_of-put_pending :
    (now : ℕ) (e : PendingInterrupt) (xs : List PendingInterrupt)
    → ltb now e.when ≡ true
    → due_of now (put_pending e xs) ≡ due_of now xs
due_of-put_pending now e [] later = rw (later) refl
due_of-put_pending now e (x ∷ xs) later = elim (Bool-cases (ltb e.when x.when)) [
  | inl before ↦ rw (before, later) refl
  | inr behind ↦ rw (behind, due_of-put_pending now e xs later) refl
]

pub later_of-put_pending :
    (now : ℕ) (e : PendingInterrupt) (xs : List PendingInterrupt)
    → ltb now e.when ≡ true
    → later_of now (put_pending e xs) ≡ put_pending e (later_of now xs)
later_of-put_pending now e [] later = rw (later) refl
later_of-put_pending now e (x ∷ xs) later = elim (Bool-cases (ltb e.when x.when)) [
  | inl before ↦
      let out : ltb now x.when ≡ true = ground (arith, before, later) in
      rw (before, later, out, before) refl
  | inr behind ↦ elim (Bool-cases (ltb now x.when)) [
    | inl out ↦ rw (behind, out, behind, later_of-put_pending now e xs later) refl
    | inr here ↦ rw (behind, here, later_of-put_pending now e xs later) refl
  ]
]
