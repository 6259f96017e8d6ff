-- ===== src/Scheduler/Pick.antt =====
-- `SchedulerFiberMain` of ukern_scheduler.cpp as a function of the fibers of each queue.
use dd_framework.Base.{
  ℕ, zero, suc, ◌-◌, ◌^◌, ◌<◌, ◌≤◌, ◌≡◌, ◌≢◌, refl, ◌∙◌, Bool, true, ◌&&◌, List, [], ◌∷◌, ◌++◌, map,
  Option, none, some, arith, Run, ok, ltb, if◌then◌else◌, ◌⊎◌, inl, inr, Bool-cases, Option-cases,
}
use dd_framework.IntrusiveList.{begin, end}
use dd_framework.IntrusiveList.Loop.{Remaining, Ring-Remaining}
use dd_framework.IntrusiveList.Ring.{Ring, length}
use dd_framework.Scheduler.State.{
  Scheduler, Fiber, Ref, root, scheduler_list_node, wait_list, Queue, high, above_normal, normal,
  below_normal, low, suspended_list, no_object,
}
use dd_framework.Scheduler.Waits.{on_core, is_scheduled, is_schedulable}
use dd_framework.Scheduler.Main.{pick_loop, pick_from, pick, or_else, wakeup_of, next_wakeup}
use dd_framework.Scheduler.Visits.{AllWaiting, earliest, wakeup_of-earliest}

-- A fiber that a core may run at a tick: scheduled, for this core, with its timeout before the tick.
abbrev pub is_due : Scheduler → ℕ → ℕ → ℕ → Bool
is_due s core tick f =
    is_scheduled (s.fibers f).fiber_state
    && on_core (s.fibers f) core
    && ltb (s.fibers f).timeout tick

abbrev pub first_due : Scheduler → ℕ → ℕ → List ℕ → Option ℕ
first_due s core tick [] = none
first_due s core tick (f ∷ fs) = if is_due s core tick f then some f else first_due s core tick fs

-- No fiber of the list still has the object that it waited on.
abbrev pub NoObjects : (ℕ → Fiber) → List ℕ → Type 0
NoObjects fibers [] = Unit {0}
NoObjects fibers (f ∷ fs) = ((fibers f).waitable_object ≡ no_object) × NoObjects fibers fs

is_schedulable-is_due :
    (n : ℕ) (s : Scheduler) (f core tick : ℕ)
    → (s.fibers f).waitable_object ≡ no_object
    → is_schedulable n s f core tick ≡ ok (s, is_due s core tick f)
unfolding is_schedulable
is_schedulable-is_due n s f core tick e = rw e (ground arith)

pick_loop-Remaining :
    (s : Scheduler) (last : Ref) (core tick : ℕ) (fs : List ℕ) (n : ℕ) (it : Ref)
    → Remaining s.nodes last it (map scheduler_list_node fs)
    → NoObjects s.fibers fs
    → length fs < n
    → pick_loop n s it last core tick ≡ ok (s, first_due s core tick fs)
unfolding pick_loop
pick_loop-Remaining s last core tick fs zero it r w h = elim h [ ]
pick_loop-Remaining s last core tick [] (suc n) it r w h = ground (arith, r)
pick_loop-Remaining s last core tick (f ∷ fs) (suc n) it r w h = ground (
  arith,
  r.0,
  r.1,
  is_schedulable-is_due n s f core tick w.0,
  pick_loop-Remaining s last core tick fs n (s.nodes.next it) r.2 w.1 (omega arith),
)

pick_from-first_due :
    (s : Scheduler) (q : Queue) (core tick : ℕ) (fs : List ℕ) (n : ℕ)
    → Ring s.nodes (root q) (map scheduler_list_node fs)
    → NoObjects s.fibers fs
    → length fs < n
    → pick_from n s q core tick ≡ ok (s, first_due s core tick fs)
unfolding pick_from
pick_from-first_due s q core tick fs n r w h =
    pick_loop-Remaining s (end s.nodes (root q)) core tick fs n (begin s.nodes (root q))
      (Ring-Remaining s.nodes (root q) (map scheduler_list_node fs) r) w h

first_due-append :
    (s : Scheduler) (core tick : ℕ) (xs ys : List ℕ)
    → first_due s core tick (xs ++ ys)
      ≡ elim (first_due s core tick xs) [ none ↦ first_due s core tick ys | some f ↦ some f ]
first_due-append s core tick [] ys = refl
first_due-append s core tick (x ∷ xs) ys = ground (arith, first_due-append s core tick xs ys)

earliest-append :
    (s : Scheduler) (core : ℕ) (ys xs : List ℕ) (tick : ℕ)
    → earliest s.fibers core tick (xs ++ ys)
      ≡ earliest s.fibers core (earliest s.fibers core tick xs) ys
earliest-append s core ys [] tick = refl
earliest-append s core ys (x ∷ xs) tick = earliest-append s core ys xs (
    if on_core (s.fibers x) core && ltb (s.fibers x).timeout tick
    then (s.fibers x).timeout
    else tick)

-- No fiber of the list that is for the core has its timeout before the tick.
abbrev pub NoneBefore : Scheduler → ℕ → ℕ → List ℕ → Type 0
NoneBefore s core tick [] = Unit {0}
NoneBefore s core tick (f ∷ fs) =
    (on_core (s.fibers f) core ≡ true → tick ≤ (s.fibers f).timeout) × NoneBefore s core tick fs

-- Some fiber of the list that is for the core has this tick as its timeout.
abbrev pub SomeAt : Scheduler → ℕ → ℕ → List ℕ → Type 0
SomeAt s core tick [] = ⊥
SomeAt s core tick (f ∷ fs) =
    ((on_core (s.fibers f) core ≡ true) × (tick ≡ (s.fibers f).timeout)) ⊎ SomeAt s core tick fs

earliest-bound :
    (s : Scheduler) (core : ℕ) (fs : List ℕ) (tick : ℕ) → earliest s.fibers core tick fs ≤ tick
earliest-bound s core [] tick = omega arith
earliest-bound s core (f ∷ fs) tick =
    ground (arith, earliest-bound s core fs tick, earliest-bound s core fs (s.fibers f).timeout)

pub earliest-NoneBefore :
    (s : Scheduler) (core : ℕ) (fs : List ℕ) (tick : ℕ)
    → NoneBefore s core (earliest s.fibers core tick fs) fs
earliest-NoneBefore s core [] tick = tt
earliest-NoneBefore s core (f ∷ fs) tick = (
  (λ h.
      ground (arith, earliest-bound s core fs tick, earliest-bound s core fs (s.fibers f).timeout)),
  earliest-NoneBefore s core fs (
      if on_core (s.fibers f) core && ltb (s.fibers f).timeout tick
      then (s.fibers f).timeout
      else tick),
)

pub earliest-SomeAt :
    (s : Scheduler) (core : ℕ) (fs : List ℕ) (tick : ℕ)
    → (earliest s.fibers core tick fs ≡ tick) ⊎ SomeAt s core (earliest s.fibers core tick fs) fs
earliest-SomeAt s core [] tick = inl refl
earliest-SomeAt s core (f ∷ fs) tick =
    let sooner = on_core (s.fibers f) core && ltb (s.fibers f).timeout tick in
    elim (earliest-SomeAt s core fs (if sooner then (s.fibers f).timeout else tick)) [
      | inl h ↦ elim (Bool-cases sooner) [
        | inl e ↦ inr (inl (ground arith, h ∙ rw e refl))
        | inr e ↦ inl (h ∙ rw e refl)
      ]
      | inr h ↦ inr (inr h)
    ]

-- What a pass of the scheduler is run on: each queue as its fibers, and the rounds that are enough.
pub record Ready (n : ℕ) (s : Scheduler) (queues : Queue → List ℕ) : Type 0 where
  pub ring : (q : Queue) → Ring s.nodes (root q) (map scheduler_list_node (queues q))
  pub rounds : (q : Queue) → length (queues q) < n
  pub no_objects : (q : Queue) → q ≢ wait_list → q ≢ suspended_list → NoObjects s.fibers (queues q)
  pub waiters : AllWaiting s.fibers (queues wait_list)

abbrev pub by_priority : (Queue → List ℕ) → List ℕ
by_priority queues =
    queues high ++ (queues above_normal ++ (queues normal ++ (queues below_normal ++ queues low)))

module _ (n : ℕ) (s : Scheduler) (queues : Queue → List ℕ) (r : Ready n s queues)
    (core tick : ℕ) where
  pick_from-Ready :
      (q : Queue)
      → q ≢ wait_list
      → q ≢ suspended_list
      → pick_from n s q core tick ≡ ok (s, first_due s core tick (queues q))
  pick_from-Ready q ne active =
      pick_from-first_due s q core tick (queues q) n (r.ring q) (r.no_objects q ne active)
        (r.rounds q)

  or_else-first_due :
      (xs ys : List ℕ) (a : Run (Scheduler × Option ℕ))
      (next : Scheduler → Run (Scheduler × Option ℕ))
      → a ≡ ok (s, first_due s core tick xs)
      → next s ≡ ok (s, first_due s core tick ys)
      → or_else a next ≡ ok (s, first_due s core tick (xs ++ ys))
  or_else-first_due xs ys a next ea en =
      rw (ea, first_due-append s core tick xs ys)
        (elim (Option-cases (first_due s core tick xs)) [ inl e ↦ rw e en | inr e ↦ rw e.1 refl ])

  abbrev from_low : Scheduler → Run (Scheduler × Option ℕ)
  from_low s1 = pick_from n s1 low core tick

  abbrev from_below_normal : Scheduler → Run (Scheduler × Option ℕ)
  from_below_normal s1 = or_else (pick_from n s1 below_normal core tick) from_low

  abbrev from_normal : Scheduler → Run (Scheduler × Option ℕ)
  from_normal s1 = or_else (pick_from n s1 normal core tick) from_below_normal

  abbrev from_above_normal : Scheduler → Run (Scheduler × Option ℕ)
  from_above_normal s1 = or_else (pick_from n s1 above_normal core tick) from_normal

  or_else-Ready :
      (q : Queue) (ys : List ℕ) (next : Scheduler → Run (Scheduler × Option ℕ))
      → q ≢ wait_list
      → q ≢ suspended_list
      → next s ≡ ok (s, first_due s core tick ys)
      → or_else (pick_from n s q core tick) next ≡ ok (s, first_due s core tick (queues q ++ ys))
  or_else-Ready q ys next ne active =
      or_else-first_due (queues q) ys (pick_from n s q core tick) next (pick_from-Ready q ne active)

  -- Where the lists are well formed, no fiber of the wait list is in the state `scheduled` and no fiber
  -- of the five runnable lists holds a wait object, the five loops return the first fiber that is due, the
  -- higher priorities first, and change nothing; more rounds than each list has fibers are enough.
  pub pick-first_due : pick n s core tick ≡ ok (s, first_due s core tick (by_priority queues))
  unfolding pick
  pick-first_due =
      or_else-Ready high
        (queues above_normal ++ (queues normal ++ (queues below_normal ++ queues low)))
        from_above_normal (λ h. cc) (λ h. cc)
        (or_else-Ready above_normal (queues normal ++ (queues below_normal ++ queues low))
          from_normal (λ h. cc) (λ h. cc)
          (or_else-Ready normal (queues below_normal ++ queues low) from_below_normal (λ h. cc)
            (λ h. cc)
            (or_else-Ready below_normal (queues low) from_low (λ h. cc) (λ h. cc)
              (pick_from-Ready low (λ h. cc) (λ h. cc)))))

  wakeup-earliest :
      (q : Queue) (bound : ℕ)
      → wakeup_of n s q core bound ≡ ok (earliest s.fibers core bound (queues q))
  wakeup-earliest q bound = wakeup_of-earliest s q core bound (queues q) n (r.ring q) (r.rounds q)

  pub next_wakeup-earliest :
      next_wakeup n s core
      ≡ ok (earliest s.fibers core (2 ^ 64 - 1) (queues wait_list ++ by_priority queues))
  unfolding next_wakeup
  next_wakeup-earliest = grind (arith, wakeup-earliest, earliest-append)

  -- Where the lists are well formed, no waiter is in the state `scheduled` and no fiber of the
  -- runnable lists holds a wait object, the next wakeup time exists: no fiber for the core in the
  -- wait list or the five runnable lists has its timeout before it, and it is 2^64 - 1 or the
  -- timeout of such a fiber.
  pub next_wakeup_lem :
      (t : ℕ) × (next_wakeup n s core ≡ ok t)
      × NoneBefore s core t (queues wait_list ++ by_priority queues)
      × ((t ≡ 2 ^ 64 - 1) ⊎ SomeAt s core t (queues wait_list ++ by_priority queues))
  next_wakeup_lem = (
    earliest s.fibers core (2 ^ 64 - 1) (queues wait_list ++ by_priority queues),
    next_wakeup-earliest,
    earliest-NoneBefore s core (queues wait_list ++ by_priority queues) (2 ^ 64 - 1),
    earliest-SomeAt s core (queues wait_list ++ by_priority queues) (2 ^ 64 - 1),
  )
