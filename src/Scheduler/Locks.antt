-- ===== src/Scheduler/Locks.antt =====
-- ukern_scheduler.cpp: locks and condition variables. `n` bounds the rounds of each loop.
use Prim.Native.Nat.{bit_or}
use dd_framework.Base.{
  ℕ, zero, suc, ◌+◌, ◌-◌, ◌^◌, true, false, not, ◌||◌, Run, ok, out_of_fuel, ◌>>=◌, ◌>>◌, require,
  Option, none, some, leb, ◌==◌, if◌then◌else◌,
}
use dd_framework.IntrusiveList
use dd_framework.ResultCode.{
  result_success, result_timeout, result_invalid_address, result_invalid_handle,
  result_invalid_lock_address_value, result_requires_lock,
}
use dd_framework.Scheduler.State.{
  Scheduler, Fiber, Ref, Ref-discrete, root, wait_list_node, wait_list_root, waiting,
  suspended_list, wait_list, set_fiber, set_word, has_child_waiters_bit, lock_arbiter, key_arbiter,
  scheduler_parent, wait_parent,
}
use dd_framework.Scheduler.Lists.{
  unlink_scheduler, push_scheduler, unlink_wait, push_wait, wait_list_empty, transfer_wait_list,
  pop_waiter,
}
use dd_framework.Scheduler.Waits.{
  load, store, clear_waiters_bit, end_wait, release_lock_wait_list_unsafe,
}
use dd_framework.Scheduler.Threads.{Outcome, returned, switched, get_fiber_by_handle}

unfoldable pub arbitrate_lock_impl : Scheduler → ℕ → ℕ → ℕ → ℕ → Run (Scheduler × Outcome)
unfolding get_fiber_by_handle
arbitrate_lock_impl s current_fiber handle lock_address tag =
    if lock_address == 0 then ok (s, returned result_invalid_address) else do
      handle_fiber ← get_fiber_by_handle s handle
      if handle_fiber == 0 || handle_fiber == current_fiber
          then ok (s, returned result_invalid_handle)
          else if not (s.words lock_address == bit_or handle has_child_waiters_bit)
          then ok (s, returned result_invalid_lock_address_value)
          else (let s1 = set_fiber s current_fiber (record (s.fibers current_fiber) {
            waitable_object = lock_arbiter;
            lock_address = lock_address;
            wait_tag = tag;
            fiber_state = waiting;
          }) in
              let s2 = push_wait s1 handle_fiber current_fiber in
              ok (
                push_scheduler (unlink_scheduler s2 current_fiber) suspended_list current_fiber,
                switched result_success,
              ))

unfoldable pub arbitrate_unlock_impl : ℕ → Scheduler → ℕ → ℕ → Run (Scheduler × ℕ)
arbitrate_unlock_impl n s current_fiber lock_address =
    if lock_address == 0
    then ok (s, result_invalid_address)
    else if wait_list_empty s current_fiber
    then ok (s, result_requires_lock)
    else if not
        ((s.fibers current_fiber).ukern_fiber_handle == clear_waiters_bit (s.words lock_address))
    then ok (s, result_invalid_lock_address_value)
    else (release_lock_wait_list_unsafe n s current_fiber >>= λ s'. ok (s', result_success))

-- The loops that look for the first fiber of the wait list with a given wait address.
unfoldable pub find_waiter : ℕ → Scheduler → Ref → Ref → ℕ → Run (Option ℕ)
find_waiter zero s it last address = out_of_fuel
find_waiter (suc n) s it last address = elim (Ref-discrete it last) [
  | yes _ ↦ ok none
  | no _ ↦ do
    f ← scheduler_parent (IntrusiveList.deref s.nodes it)
    let rest = find_waiter n s (IntrusiveList.advance s.nodes it) last address
    if (s.fibers f).wait_address == address then ok (some f) else rest
]

unfoldable pub find_address : ℕ → Scheduler → ℕ → Run (Option ℕ)
unfolding find_waiter
find_address n s address =
    find_waiter n s (IntrusiveList.begin s.nodes (root wait_list))
      (IntrusiveList.end s.nodes (root wait_list)) address

-- The fields that `WaitKeyImpl` sets where the wait has not timed out.
abbrev pub set_key_wait : Fiber → ℕ → ℕ → ℕ → ℕ → Fiber
set_key_wait b lock_address cv_key tag absolute_timeout = record b {
  waitable_object = key_arbiter;
  wait_address = cv_key;
  lock_address = lock_address;
  wait_tag = tag;
  fiber_state = waiting;
  timeout = absolute_timeout;
}

-- "Find a parent cv waiter": joins the wait list of the one that was found.
abbrev pub join_parent : Scheduler → Option ℕ → ℕ → Scheduler
join_parent s none f = s
join_parent s (some parent) f = push_wait s parent f

-- `absolute_timeout` is an `s64` taken as its bit pattern, as it is stored.
unfoldable pub wait_key_impl : ℕ → Scheduler → ℕ → ℕ → ℕ → ℕ → ℕ → Run (Scheduler × Outcome)
unfolding find_address
wait_key_impl n s current_fiber lock_address cv_key tag absolute_timeout =
    if lock_address == 0
    then ok (s, returned result_invalid_address)
    else if cv_key == 0
    then ok (s, returned result_invalid_address)
    else if wait_list_empty s current_fiber
    then ok (s, returned result_requires_lock)
    else if not ((s.fibers current_fiber).ukern_fiber_handle == s.words lock_address)
    then ok (s, returned result_invalid_lock_address_value)
    else do
      s1 ← release_lock_wait_list_unsafe n s current_fiber
      let s2 = set_word s1 cv_key 1
      let timed_out = absolute_timeout == 0
      let s3 =
          if timed_out
          then s2
          else set_fiber s2 current_fiber
              (set_key_wait (s2.fibers current_fiber) lock_address cv_key tag absolute_timeout)
      parent ← find_address n s3 cv_key
      let s4 = join_parent s3 parent current_fiber
      let s5 =
          if IntrusiveList.is_linked Ref-discrete s4.nodes (wait_list_node current_fiber)
          then push_scheduler (unlink_scheduler s4 current_fiber) wait_list current_fiber
          else s4
      ok (s5, switched (if timed_out then result_timeout else result_success))

-- `GetFiberByHandle` is called with the constant mask.
unfoldable pub swap_lock_for_signal_key : Scheduler → ℕ → Run Scheduler
unfolding get_fiber_by_handle
swap_lock_for_signal_key s waiting_fiber = do
  let b = s.fibers waiting_fiber
  prev_tag ← load s b.lock_address
  s1 ←
      store s b.lock_address
        (if prev_tag == 0 then b.wait_tag else bit_or b.wait_tag has_child_waiters_bit)
  if prev_tag == 0 then end_wait s1 waiting_fiber result_success else do
    lock_fiber ← get_fiber_by_handle s1 (2 ^ 32 - 1 - has_child_waiters_bit)
    require (not (lock_fiber == 0))
    ok (push_wait s1 lock_fiber waiting_fiber)

-- The loop that unlocks further waiters, with `i` signalled so far.
unfoldable pub signal_loop : ℕ → Scheduler → Ref → Ref → ℕ → ℕ → Run Scheduler
unfolding swap_lock_for_signal_key
signal_loop zero s it last i signal_count = out_of_fuel
signal_loop (suc n) s it last i signal_count = elim (Ref-discrete it last) [
  | yes _ ↦ ok s
  | no _ ↦ elim (leb signal_count i) [
    | true ↦ ok s
    | false ↦ do
      f ← wait_parent (IntrusiveList.deref s.nodes it)
      s1 ← swap_lock_for_signal_key (unlink_wait s f) f
      signal_loop n s1 (IntrusiveList.advance s1.nodes it) last (i + 1) signal_count
  ]
]

-- "Transfer wait list": the first waiter left becomes the parent of the others, in place of `f`.
unfoldable pub hand_over_wait_list : ℕ → Scheduler → ℕ → Run Scheduler
hand_over_wait_list n s f = if wait_list_empty s f then ok s else do
  (s1, next_parent) ← pop_waiter s f
  s2 ← transfer_wait_list n s1 f next_parent
  ok (push_scheduler (unlink_scheduler s2 f) wait_list next_parent)

unfoldable pub signal_key_impl : ℕ → Scheduler → ℕ → ℕ → Run (Scheduler × ℕ)
unfolding find_address signal_loop hand_over_wait_list
signal_key_impl n s cv_key signal_count =
    if cv_key == 0
    then ok (s, result_invalid_address)
    else if signal_count == 0
    then ok (set_word s cv_key 0, result_success)
    else do
      found ← find_address n s cv_key
      elim found [
        | none ↦ ok (s, result_invalid_address)
        | some cv_fiber ↦ do
          s1 ← swap_lock_for_signal_key s cv_fiber
          s2 ←
              signal_loop n s1 (IntrusiveList.begin s1.nodes (wait_list_root cv_fiber))
                (IntrusiveList.end s1.nodes (wait_list_root cv_fiber)) 1 signal_count
          s3 ← hand_over_wait_list n s2 cv_fiber
          ok (set_word s3 cv_key 0, result_success)
      ]
