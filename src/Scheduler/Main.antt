-- ===== src/Scheduler/Main.antt =====
-- ukern_scheduler.cpp: `SchedulerFiberMain`, one pass from its label on, and `Dispatch`, up to the
-- switch to the user fiber and from the switch back. `n` bounds the rounds of each loop.
use dd_framework.Base.{
  ℕ, zero, suc, ◌+◌, ◌-◌, ◌%◌, ◌^◌, not, ◌&&◌, Run, ok, fault, out_of_fuel, ◌>>=◌, ◌>>◌, require,
  Option, none, some, ltb, ◌==◌, if◌then◌else◌,
}
use dd_framework.IntrusiveList
use dd_framework.ObjectAllocator.{fixed_free}
use dd_framework.ResultCode.{result_timeout}
use dd_framework.Scheduler.State.{
  Scheduler, Queue, Ref, Ref-discrete, root, high, above_normal, normal, below_normal, low,
  wait_list, running, exiting, waiting, scheduled, suspended, set_fiber, scheduler_parent,
  max_thread_count,
}
use dd_framework.Scheduler.Lists.{unlink_scheduler, add_to_scheduler_unsafe}
use dd_framework.Scheduler.Waits.{is_schedulable, cancel_wait, on_core}

-- "Visit waiting thread list for timeouts".
unfoldable pub timeout_loop : ℕ → Scheduler → Ref → Ref → ℕ → ℕ → Run Scheduler
timeout_loop zero s it last core tick = out_of_fuel
timeout_loop (suc n) s it last core tick = elim (Ref-discrete it last) [
  | yes _ ↦ ok s
  | no _ ↦ do
    f ← scheduler_parent (IntrusiveList.deref s.nodes it)
    (s1, due) ← is_schedulable n s f core tick
    s2 ← if due then cancel_wait n s1 f result_timeout else ok s1
    timeout_loop n s2 (IntrusiveList.advance s2.nodes it) last core tick
]

unfoldable pub visit_timeouts : ℕ → Scheduler → ℕ → ℕ → Run Scheduler
unfolding timeout_loop
visit_timeouts n s core tick =
    timeout_loop n s (IntrusiveList.begin s.nodes (root wait_list))
      (IntrusiveList.end s.nodes (root wait_list)) core tick

-- The loop over one runnable list: the first fiber that is schedulable.
unfoldable pub pick_loop : ℕ → Scheduler → Ref → Ref → ℕ → ℕ → Run (Scheduler × Option ℕ)
pick_loop zero s it last core tick = out_of_fuel
pick_loop (suc n) s it last core tick = elim (Ref-discrete it last) [
  | yes _ ↦ ok (s, none)
  | no _ ↦ do
    f ← scheduler_parent (IntrusiveList.deref s.nodes it)
    (s1, due) ← is_schedulable n s f core tick
    let rest = pick_loop n s1 (IntrusiveList.advance s1.nodes it) last core tick
    if due then ok (s1, some f) else rest
]

unfoldable pub pick_from : ℕ → Scheduler → Queue → ℕ → ℕ → Run (Scheduler × Option ℕ)
unfolding pick_loop
pick_from n s q core tick =
    pick_loop n s (IntrusiveList.begin s.nodes (root q)) (IntrusiveList.end s.nodes (root q)) core
      tick

-- Goes on with `next` where nothing was picked.
abbrev pub or_else :
    Run (Scheduler × Option ℕ)
    → (Scheduler → Run (Scheduler × Option ℕ))
    → Run (Scheduler × Option ℕ)
or_else r next = r >>= λ p. elim p.1 [ none ↦ next p.0 | some f ↦ ok (p.0, some f) ]

-- "Run first available thread by priority".
unfoldable pub pick : ℕ → Scheduler → ℕ → ℕ → Run (Scheduler × Option ℕ)
unfolding pick_from
pick n s core tick = or_else (pick_from n s high core tick) λ s1.
    or_else (pick_from n s1 above_normal core tick) λ s2.
      or_else (pick_from n s2 normal core tick)
        λ s3. or_else (pick_from n s3 below_normal core tick) λ s4. pick_from n s4 low core tick

-- `Dispatch` up to the switch to the user fiber.
unfoldable pub dispatch_enter : Scheduler → ℕ → ℕ → Run Scheduler
dispatch_enter s f core_number = do
  require (ltb core_number s.core_count)
  ok (
      unlink_scheduler
        (set_fiber s f (record (s.fibers f) { fiber_state = running; current_core = core_number }))
        f)

-- `Dispatch` from the switch back; `base` is the address of the allocator's array.
unfoldable pub dispatch_leave : ℕ → Scheduler → ℕ → ℕ → Run Scheduler
dispatch_leave base s f core_number = do
  require (core_number == (s.fibers f).current_core)
  elim (s.fibers f).fiber_state [
    | running ↦ ok (add_to_scheduler_unsafe s f)
    | exiting ↦
        (fixed_free base max_thread_count s.fiber_allocator f >>= λ a.
        ok (record s { fiber_allocator = a }))
    | waiting ↦ ok s
    | scheduled ↦ fault
    | suspended ↦ fault
  ]

-- "Find next wakeup time" over one list, from `timeout_tick` on.
unfoldable pub wakeup_loop : ℕ → Scheduler → Ref → Ref → ℕ → ℕ → Run ℕ
wakeup_loop zero s it last core timeout_tick = out_of_fuel
wakeup_loop (suc n) s it last core timeout_tick = elim (Ref-discrete it last) [
  | yes _ ↦ ok timeout_tick
  | no _ ↦ do
    f ← scheduler_parent (IntrusiveList.deref s.nodes it)
    wakeup_loop n s (IntrusiveList.advance s.nodes it) last core (
        if on_core (s.fibers f) core && ltb (s.fibers f).timeout timeout_tick
        then (s.fibers f).timeout
        else timeout_tick)
]

unfoldable pub wakeup_of : ℕ → Scheduler → Queue → ℕ → ℕ → Run ℕ
unfolding wakeup_loop
wakeup_of n s q core timeout_tick =
    wakeup_loop n s (IntrusiveList.begin s.nodes (root q)) (IntrusiveList.end s.nodes (root q)) core
      timeout_tick

unfoldable pub next_wakeup : ℕ → Scheduler → ℕ → Run ℕ
unfolding wakeup_of
next_wakeup n s core = do
  t1 ← wakeup_of n s wait_list core (2 ^ 64 - 1)
  t2 ← wakeup_of n s high core t1
  t3 ← wakeup_of n s above_normal core t2
  t4 ← wakeup_of n s normal core t3
  t5 ← wakeup_of n s below_normal core t4
  wakeup_of n s low core t5

-- What a pass ends in: a fiber to run, or a rest until a tick.
pub data Pass : Type 0 where
  dispatches : ℕ → Pass
  rests : ℕ → Pass

unfoldable pub scheduler_pass : ℕ → Scheduler → ℕ → ℕ → Run (Scheduler × Pass)
unfolding visit_timeouts pick dispatch_enter next_wakeup
scheduler_pass n s core tick = do
  s1 ← visit_timeouts n s core tick
  (s2, picked) ← pick n s1 core tick
  elim picked [
    | some f ↦ (dispatch_enter s2 f core >>= λ s3. ok (s3, dispatches f))
    | none ↦ do
      let s3 = record s2 { active_cores = (s2.active_cores + (2 ^ 32 - 1)) % 2 ^ 32 }
      require (not (s3.runnable_fibers == 0 && s3.active_cores == 0))
      t ← next_wakeup n s3 core
      ok (s3, rests t)
  ]

-- The end of the rest, before the next pass.
unfoldable pub scheduler_wake : Scheduler → Scheduler
scheduler_wake s = record s { active_cores = (s.active_cores + 1) % 2 ^ 32 }
