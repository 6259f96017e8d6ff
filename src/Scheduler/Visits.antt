-- ===== src/Scheduler/Visits.antt =====
-- The loops of ukern_scheduler.cpp over the scheduler's lists, as functions of the fibers of each list.
use dd_framework.Base.{
  ℕ, zero, suc, ◌+◌, ◌-◌, ◌^◌, ◌<◌, ◌≡◌, false, ◌&&◌, List, [], ◌∷◌, map, Option, none, some, arith,
  ok, ◌==◌, ltb, if◌then◌else◌,
}
use dd_framework.IntrusiveList.{begin, end}
use dd_framework.IntrusiveList.Loop.{Remaining, Ring-Remaining}
use dd_framework.IntrusiveList.Ring.{Ring, length}
use dd_framework.Scheduler.State.{
  Scheduler, Fiber, Ref, root, scheduler_list_node, wait_list_node, wait_list_root, wait_list,
  Queue,
}
use dd_framework.Scheduler.Waits.{on_core, is_scheduled, is_schedulable}
use dd_framework.Scheduler.Locks.{find_waiter, find_address}
use dd_framework.Scheduler.Addresses.{count_loop, signal_value}
use dd_framework.Scheduler.Main.{timeout_loop, visit_timeouts, wakeup_loop, wakeup_of}

abbrev pub first_at : Scheduler → ℕ → List ℕ → Option ℕ
first_at s address [] = none
first_at s address (f ∷ fs) =
    if (s.fibers f).wait_address == address then some f else first_at s address fs

find_waiter-Remaining :
    (s : Scheduler) (last : Ref) (address : ℕ) (fs : List ℕ) (n : ℕ) (it : Ref)
    → Remaining s.nodes last it (map scheduler_list_node fs)
    → length fs < n
    → find_waiter n s it last address ≡ ok (first_at s address fs)
unfolding find_waiter
find_waiter-Remaining s last address fs zero it r h = elim h [ ]
find_waiter-Remaining s last address [] (suc n) it r h = ground (arith, r)
find_waiter-Remaining s last address (f ∷ fs) (suc n) it r h =
    ground (
      arith,
      r.0,
      r.1,
      find_waiter-Remaining s last address fs n (s.nodes.next it) r.2 (omega arith),
    )

-- The search of a well-formed wait list returns its first fiber with the address, or none; more
-- rounds than the list has fibers are enough.
pub find_address-first_at :
    (s : Scheduler) (address : ℕ) (fs : List ℕ) (n : ℕ)
    → Ring s.nodes (root wait_list) (map scheduler_list_node fs)
    → length fs < n
    → find_address n s address ≡ ok (first_at s address fs)
unfolding find_address
find_address-first_at s address fs n r h =
    find_waiter-Remaining s (end s.nodes (root wait_list)) address fs n
      (begin s.nodes (root wait_list))
      (Ring-Remaining s.nodes (root wait_list) (map scheduler_list_node fs) r) h

count_loop-Remaining :
    (s : Scheduler) (last : Ref) (fs : List ℕ) (n i : ℕ) (it : Ref)
    → Remaining s.nodes last it (map wait_list_node fs)
    → length fs < n
    → count_loop n s it last i ≡ ok (i + length fs)
unfolding count_loop
count_loop-Remaining s last fs zero i it r h = elim h [ ]
count_loop-Remaining s last [] (suc n) i it r h = ground (arith, r)
count_loop-Remaining s last (f ∷ fs) (suc n) i it r h =
    ground
      (arith, r.0, count_loop-Remaining s last fs n (i + 1) (s.nodes.next it) r.2 (omega arith))

-- Where fiber `f` waits on the address, with the fibers of its well-formed wait list: the value to
-- add is -1 if the count is 0 or more than all these fibers, and else 0. More rounds than the list
-- has fibers are enough to count them.
pub signal_value-length :
    (s : Scheduler) (f count : ℕ) (fs : List ℕ) (n : ℕ)
    → Ring s.nodes (wait_list_root f) (map wait_list_node fs)
    → length fs < n
    → signal_value n s (some f) count
      ≡ ok (if count == 0 then 2 ^ 32 - 1 else if ltb (1 + length fs) count then 2 ^ 32 - 1 else 0)
unfolding signal_value
signal_value-length s f count fs n r h = ground (
  arith,
  count_loop-Remaining s (end s.nodes (wait_list_root f)) fs n 1 (begin s.nodes (wait_list_root f))
      (Ring-Remaining s.nodes (wait_list_root f) (map wait_list_node fs) r) h,
)

abbrev pub AllWaiting : (ℕ → Fiber) → List ℕ → Type 0
AllWaiting fibers [] = Unit {0}
AllWaiting fibers (f ∷ fs) = (is_scheduled (fibers f).fiber_state ≡ false) × AllWaiting fibers fs

timeout_loop-Remaining :
    (s : Scheduler) (last : Ref) (core tick : ℕ) (fs : List ℕ) (n : ℕ) (it : Ref)
    → Remaining s.nodes last it (map scheduler_list_node fs)
    → AllWaiting s.fibers fs
    → length fs < n
    → timeout_loop n s it last core tick ≡ ok s
unfolding timeout_loop is_schedulable
timeout_loop-Remaining s last core tick fs zero it r w h = elim h [ ]
timeout_loop-Remaining s last core tick [] (suc n) it r w h = ground (arith, r)
timeout_loop-Remaining s last core tick (f ∷ fs) (suc n) it r w h = ground (
  arith,
  r.0,
  r.1,
  w.0,
  timeout_loop-Remaining s last core tick fs n (s.nodes.next it) r.2 w.1 (omega arith),
)

-- Whatever the tick, the visit of a well-formed wait list changes nothing as long as none of its
-- fibers is in the state `scheduled`; more rounds than the list has fibers are enough.
pub visit_timeouts_lem :
    (s : Scheduler) (core tick : ℕ) (fs : List ℕ) (n : ℕ)
    → Ring s.nodes (root wait_list) (map scheduler_list_node fs)
    → AllWaiting s.fibers fs
    → length fs < n
    → visit_timeouts n s core tick ≡ ok s
unfolding visit_timeouts
visit_timeouts_lem s core tick fs n r w h =
    timeout_loop-Remaining s (end s.nodes (root wait_list)) core tick fs n
      (begin s.nodes (root wait_list))
      (Ring-Remaining s.nodes (root wait_list) (map scheduler_list_node fs) r) w h

-- The least of a tick and the timeouts of the fibers for a core.
abbrev pub earliest : (ℕ → Fiber) → ℕ → ℕ → List ℕ → ℕ
earliest fibers core tick [] = tick
earliest fibers core tick (f ∷ fs) =
    earliest fibers core
      (if on_core (fibers f) core && ltb (fibers f).timeout tick then (fibers f).timeout else tick)
      fs

wakeup_loop-Remaining :
    (s : Scheduler) (last : Ref) (core : ℕ) (fs : List ℕ) (n tick : ℕ) (it : Ref)
    → Remaining s.nodes last it (map scheduler_list_node fs)
    → length fs < n
    → wakeup_loop n s it last core tick ≡ ok (earliest s.fibers core tick fs)
unfolding wakeup_loop
wakeup_loop-Remaining s last core fs zero tick it r h = elim h [ ]
wakeup_loop-Remaining s last core [] (suc n) tick it r h = ground (arith, r)
wakeup_loop-Remaining s last core (f ∷ fs) (suc n) tick it r h = ground (
  arith,
  r.0,
  r.1,
  wakeup_loop-Remaining s last core fs n
      (if on_core (s.fibers f) core && ltb (s.fibers f).timeout tick
        then (s.fibers f).timeout
        else tick)
      (s.nodes.next it) r.2 (omega arith),
)

pub wakeup_of-earliest :
    (s : Scheduler) (q : Queue) (core tick : ℕ) (fs : List ℕ) (n : ℕ)
    → Ring s.nodes (root q) (map scheduler_list_node fs)
    → length fs < n
    → wakeup_of n s q core tick ≡ ok (earliest s.fibers core tick fs)
unfolding wakeup_of
wakeup_of-earliest s q core tick fs n r h =
    wakeup_loop-Remaining s (end s.nodes (root q)) core fs n tick (begin s.nodes (root q))
      (Ring-Remaining s.nodes (root q) (map scheduler_list_node fs) r) h
