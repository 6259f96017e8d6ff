-- ===== src/Scheduler/Addresses.antt =====
-- ukern_scheduler.cpp: waiting on an address and waking its waiters. `n` bounds the rounds of each
-- loop. An `s64` timeout is an integer; it is stored as its bit pattern.
use dd_framework.Base.{
  ℕ, zero, suc, ◌+◌, ◌-◌, ◌%◌, ◌^◌, Bool, true, false, not, Run, ok, fault, out_of_fuel, ◌>>=◌,
  Option, none, some, ltb, leb, ◌==◌, if◌then◌else◌, Signed, pos, negsuc, to_u64,
}
use dd_framework.IntrusiveList
use dd_framework.ResultCode.{
  result_success, result_timeout, result_invalid_address, result_invalid_wait_address_value,
  result_no_waiters, result_value_out_of_range,
}
use dd_framework.Scheduler.State.{
  Scheduler, Fiber, Ref, Ref-discrete, wait_list_root, waiting, wait_list, set_fiber, set_word,
  wait_address_arbiter, wait_parent,
}
use dd_framework.Scheduler.Lists.{unlink_wait, push_scheduler, push_wait}
use dd_framework.Scheduler.Waits.{end_wait}
use dd_framework.Scheduler.Threads.{Outcome, returned, switched}
use dd_framework.Scheduler.Locks.{find_address, hand_over_wait_list}

-- `absolute_timeout <= 0`.
abbrev pub not_positive : Signed → Bool
not_positive (pos t) = t == 0
not_positive (negsuc t) = true

-- The bit pattern of an `s64`.
abbrev pub set_address_wait : Fiber → ℕ → Signed → Fiber
set_address_wait b wait_address absolute_timeout = record b {
  waitable_object = wait_address_arbiter;
  wait_address = wait_address;
  fiber_state = waiting;
  timeout = to_u64 absolute_timeout;
}

-- The fiber becomes a waiter: of the fiber that waits on the address already, or of the wait list.
abbrev pub join_address : Scheduler → Option ℕ → ℕ → Scheduler
join_address s none f = push_scheduler s wait_list f
join_address s (some parent) f = push_wait s parent f

unfoldable pub enter_address_wait : ℕ → Scheduler → ℕ → ℕ → Signed → Run (Scheduler × Outcome)
enter_address_wait n s current_fiber wait_address absolute_timeout = do
  let s1 =
      set_fiber s current_fiber
        (set_address_wait (s.fibers current_fiber) wait_address absolute_timeout)
  found ← find_address n s1 wait_address
  ok (join_address s1 found current_fiber, switched result_success)

unfoldable pub wait_for_address_if_equal_impl :
    ℕ → Scheduler → ℕ → ℕ → ℕ → Signed → Run (Scheduler × Outcome)
unfolding enter_address_wait
wait_for_address_if_equal_impl n s current_fiber wait_address value absolute_timeout =
    if wait_address == 0
    then ok (s, returned result_invalid_address)
    else if not (s.words wait_address == value)
    then ok (s, switched result_invalid_wait_address_value)
    else if not_positive absolute_timeout
    then ok (s, switched result_timeout)
    else enter_address_wait n s current_fiber wait_address absolute_timeout

-- `*wait_address - 1` in 32 bits.
abbrev pub decrement : ℕ → ℕ
decrement v = (v + (2 ^ 32 - 1)) % 2 ^ 32

unfoldable pub wait_for_address_if_less_than_impl :
    ℕ → Scheduler → ℕ → ℕ → ℕ → Signed → Bool → Run (Scheduler × Outcome)
unfolding enter_address_wait
wait_for_address_if_less_than_impl n s current_fiber wait_address value absolute_timeout
      do_decrement =
    if wait_address == 0
    then ok (s, returned result_invalid_address)
    else (let wait_value = s.words wait_address in
        let s1 = if do_decrement then set_word s wait_address (decrement wait_value) else s in
        if leb value wait_value
        then ok (s1, switched result_invalid_wait_address_value)
        else if not_positive absolute_timeout
        then ok (s1, switched result_timeout)
        else enter_address_wait n s1 current_fiber wait_address absolute_timeout)

-- "Release the waiting fibers", with `i` released so far: each one's wait ends, and then its node
-- leaves the list.
unfoldable pub wake_loop : ℕ → Scheduler → Ref → Ref → ℕ → ℕ → Run Scheduler
wake_loop zero s it last i count = out_of_fuel
wake_loop (suc n) s it last i count = elim (Ref-discrete it last) [
  | yes _ ↦ ok s
  | no _ ↦ elim (ltb count i) [
    | true ↦ ok s
    | false ↦ do
      f ← wait_parent (IntrusiveList.deref s.nodes it)
      s1 ← end_wait s f result_success
      let s2 = unlink_wait s1 f
      wake_loop n s2 (IntrusiveList.advance s2.nodes it) last (i + 1) count
  ]
]

-- What the three wake operations share: the end of the parent's wait, the loop, and the hand-over.
unfoldable pub wake_waiters : ℕ → Scheduler → ℕ → ℕ → Run Scheduler
unfolding wake_loop
wake_waiters n s address_fiber count = do
  s1 ← end_wait s address_fiber result_success
  s2 ←
      wake_loop n s1 (IntrusiveList.begin s1.nodes (wait_list_root address_fiber))
        (IntrusiveList.end s1.nodes (wait_list_root address_fiber)) 1 count
  hand_over_wait_list n s2 address_fiber

unfoldable pub wake_by_address_impl : ℕ → Scheduler → ℕ → ℕ → Run (Scheduler × ℕ)
unfolding wake_waiters
wake_by_address_impl n s wait_address count =
    if wait_address == 0
    then ok (s, result_invalid_address)
    else if count == 0
    then ok (s, result_success)
    else do
      found ← find_address n s wait_address
      elim found [
        | none ↦ ok (s, result_no_waiters)
        | some f ↦ wake_waiters n s f count >>= λ s'. ok (s', result_success)
      ]

-- Where nobody waits, `address_fiber` is null when its `waitable_object` is read.
abbrev pub wake_found : ℕ → Scheduler → Option ℕ → ℕ → Run (Scheduler × ℕ)
wake_found n s none count = fault
wake_found n s (some f) count = wake_waiters n s f count >>= λ s'. ok (s', result_success)

unfoldable pub wake_by_address_increment_equal_impl :
    ℕ → Scheduler → ℕ → ℕ → ℕ → Run (Scheduler × ℕ)
unfolding wake_waiters
wake_by_address_increment_equal_impl n s wait_address value count =
    if wait_address == 0
    then ok (s, result_invalid_address)
    else if not (s.words wait_address == value)
    then ok (s, result_value_out_of_range)
    else do
      let s1 = set_word s wait_address ((value + 1) % 2 ^ 32)
      found ← find_address n s1 wait_address
      wake_found n s1 found count

-- The number of fibers that a loop over a wait list counts, from `i` on.
unfoldable pub count_loop : ℕ → Scheduler → Ref → Ref → ℕ → Run ℕ
count_loop zero s it last i = out_of_fuel
count_loop (suc n) s it last i =
    let rest = count_loop n s (IntrusiveList.advance s.nodes it) last (i + 1) in
    elim (Ref-discrete it last) [ yes _ ↦ ok i | no _ ↦ rest ]

-- "Determine value to signal"; -1 is 2^32 - 1.
unfoldable pub signal_value : ℕ → Scheduler → Option ℕ → ℕ → Run ℕ
unfolding count_loop
signal_value n s none count = ok 1
signal_value n s (some f) count = if count == 0 then ok (2 ^ 32 - 1) else do
  i ←
      count_loop n s (IntrusiveList.begin s.nodes (wait_list_root f))
        (IntrusiveList.end s.nodes (wait_list_root f)) 1
  ok (if ltb i count then 2 ^ 32 - 1 else 0)

unfoldable pub wake_by_address_modify_less_than_impl :
    ℕ → Scheduler → ℕ → ℕ → ℕ → Run (Scheduler × ℕ)
unfolding wake_waiters signal_value
wake_by_address_modify_less_than_impl n s wait_address value count =
    if wait_address == 0
    then ok (s, result_invalid_address)
    else if not (s.words wait_address == value)
    then ok (s, result_value_out_of_range)
    else do
      found ← find_address n s wait_address
      signal ← signal_value n s found count
      wake_found n (if signal == 0 then s else set_word s wait_address ((value + signal) % 2 ^ 32))
          found count
