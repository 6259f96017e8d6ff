-- ===== src/MessageQueue.antt =====
-- libraries/lib_dd/include/dd/util/util_messagequeue.hpp: a bounded queue of words in a circular
-- buffer. Each method holds the queue's critical section, so it is one step; a method that waits on a
-- condition variable is modelled up to the wait: it `blocks`, or it goes on in the same step.
pub mod Window
pub mod Fifo
mod Tests
use dd_framework.Base.{
  ℕ, zero, suc, ◌+◌, ◌-◌, ◌^◌, Bool, true, false, Option, none, some, ltb, leb, ◌==◌, if◌then◌else◌,
  update, Run, ok, ◌>>=◌, ◌>>◌, require,
}

-- The counts are `s32` fields that are never negative.
pub record MessageQueue : Type 0 where
  pub message_buffer : ℕ → ℕ
  pub max_messages : ℕ
  pub pending_messages : ℕ
  pub current_message : ℕ

-- The constructor leaves the two indices as the storage holds them, and so does `Initialize`. `buffer`
-- is the array that `new` returns.
unfoldable pub initialize : MessageQueue → (ℕ → ℕ) → ℕ → MessageQueue
initialize q buffer max_message_count = record q {
  message_buffer = buffer;
  max_messages = max_message_count;
}

-- A sum that `s32` cannot hold is a fault, and so is an index past the buffer.
unfoldable pub send_message_impl : MessageQueue → ℕ → Run MessageQueue
send_message_impl q message = do
  let sum = q.pending_messages + q.current_message
  require (ltb sum (2 ^ 31))
  let index = if leb q.max_messages sum then sum - q.max_messages else sum
  require (ltb index q.max_messages)
  ok (record q {
    message_buffer = update q.message_buffer index message;
    pending_messages = q.pending_messages + 1;
  })

-- Called with a message pending only.
unfoldable pub receive_message_impl : MessageQueue → Run (MessageQueue × ℕ)
receive_message_impl q = do
  require (ltb q.current_message q.max_messages)
  let current = q.current_message + 1
  let offset = if leb q.max_messages current then q.max_messages else 0
  ok (
    record q { current_message = current - offset; pending_messages = q.pending_messages - 1 },
    q.message_buffer q.current_message,
  )

unfoldable pub try_receive_message : MessageQueue → Run (MessageQueue × Option ℕ)
try_receive_message q =
    if q.pending_messages == 0
    then ok (q, none)
    else receive_message_impl q >>= λ r. ok (r.0, some r.1)

unfoldable pub try_send_message : MessageQueue → ℕ → Run (MessageQueue × Bool)
try_send_message q message =
    if leb q.max_messages q.pending_messages
    then ok (q, false)
    else send_message_impl q message >>= λ q'. ok (q', true)

-- Whether the caller goes on, or waits for another thread's step.
pub data Outcome (A : Type 0) : Type 0 where
  returns : A → Outcome A
  blocks : Outcome A

unfoldable pub receive_message : MessageQueue → Run (Outcome (MessageQueue × ℕ))
receive_message q =
    if q.pending_messages == 0 then ok blocks else receive_message_impl q >>= λ r. ok (returns r)

unfoldable pub send_message : MessageQueue → ℕ → Run (Outcome MessageQueue)
send_message q message =
    if leb q.max_messages q.pending_messages
    then ok blocks
    else send_message_impl q message >>= λ q'. ok (returns q')
