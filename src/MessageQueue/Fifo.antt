-- ===== src/MessageQueue/Fifo.antt =====
-- The queue of util_messagequeue.hpp is a bounded first-in-first-out queue.
use dd_framework.Base.{
  ℕ, zero, suc, ◌+◌, ◌^◌, ◌≤◌, ◌<◌, ◌≡◌, ◌↔◌, refl, ap, ◌∙◌, Bool, true, false, Option, none, some,
  List, [], ◌∷◌, ◌++◌, arith, leb, if◌then◌else◌, update, Run, ok, ◌>>=◌, Bool-cases, inl, inr,
}
use native.Mathlib.Numerals.{add-one}
use dd_framework.MessageQueue.{
  MessageQueue, returns, blocks, send_message_impl, receive_message_impl, try_receive_message,
  try_send_message, receive_message, send_message,
}
use dd_framework.MessageQueue.Window.{wrap, window, window-update}

abbrev pub contents : MessageQueue → List ℕ
contents q = window q.message_buffer q.max_messages q.current_message q.pending_messages

-- Twice the capacity fits an `s32`.
pub record IsValid (q : MessageQueue) : Type 0 where
  pub current : q.current_message < q.max_messages
  pub pending : q.pending_messages ≤ q.max_messages
  pub fits : q.max_messages ≤ 2 ^ 30

abbrev pub length : List ℕ → ℕ
length [] = 0
length (x ∷ xs) = suc (length xs)

pub length-window : (buffer : ℕ → ℕ) (max current n : ℕ) → length (window buffer max current n) ≡ n
unfolding window
length-window buffer max current zero = refl
length-window buffer max current (suc n) =
    ground (arith, length-window buffer max (wrap max (current + 1)) n)

-- The queue after `SendMessageImpl`, where it is defined.
abbrev sent : MessageQueue → ℕ → MessageQueue
sent q message = record q {
  message_buffer =
      update q.message_buffer (wrap q.max_messages (q.pending_messages + q.current_message))
        message;
  pending_messages = q.pending_messages + 1;
}

module _ (q : MessageQueue) (v : IsValid q) where
  send_message_impl-sent :
      (message : ℕ)
      → q.pending_messages < q.max_messages
      → send_message_impl q message ≡ ok (sent q message)
  unfolding send_message_impl
  send_message_impl-sent message h = ground (arith, v.current, v.fits)

  contents-sent :
      (message : ℕ)
      → q.pending_messages < q.max_messages
      → contents (sent q message) ≡ contents q ++ message ∷ []
  contents-sent message h =
      rw
        (← window-update q.message_buffer q.max_messages q.current_message q.pending_messages
          message v.current h)
        (rw add-one)

  sent-IsValid : (message : ℕ) → q.pending_messages < q.max_messages → IsValid (sent q message)
  sent-IsValid message h = omega arith

pub data Op : Type 0 where
  sends : ℕ → Op
  receives : Op

pub data Answer : Type 0 where
  sent? : Bool → Answer
  received : Option ℕ → Answer

-- The specification: a list and a capacity.
abbrev pub spec : ℕ → List ℕ → Op → List ℕ × Answer
spec max xs (sends m) =
    if leb max (length xs) then (xs, sent? false) else (xs ++ m ∷ [], sent? true)
spec max [] receives = ([], received none)
spec max (x ∷ xs) receives = (xs, received (some x))

unfoldable pub step : MessageQueue → Op → Run (MessageQueue × Answer)
step q (sends m) = try_send_message q m >>= λ r. ok (r.0, sent? r.1)
step q receives = try_receive_message q >>= λ r. ok (r.0, received r.1)

abbrev pub Implements : MessageQueue → Op → Type 0
Implements q c =
    (q' : MessageQueue) × (step q c ≡ ok (q', (spec q.max_messages (contents q) c).1))
    × (contents q' ≡ (spec q.max_messages (contents q) c).0)
    × (q'.max_messages ≡ q.max_messages)
    × IsValid q'

length-contents : (q : MessageQueue) → length (contents q) ≡ q.pending_messages
length-contents q =
    length-window q.message_buffer q.max_messages q.current_message q.pending_messages

step-sends : (q : MessageQueue) (m : ℕ) → IsValid q → Implements q (sends m)
unfolding step try_send_message
step-sends q m v = elim (Bool-cases (leb q.max_messages q.pending_messages)) [
  | inl full ↦ (q, ground (arith, length-contents q), ground (arith, length-contents q), refl, v)
  | inr room ↦
      let below : q.pending_messages < q.max_messages = ground arith in
      (
        sent q m,
        ground (arith, length-contents q, send_message_impl-sent q v m below),
        ground (arith, length-contents q, contents-sent q v m below),
        refl,
        sent-IsValid q v m below,
      )
]

-- The queue after `RecieveMessageImpl`, with `n` messages left.
abbrev taken : MessageQueue → ℕ → MessageQueue
taken q n = record q {
  current_message = wrap q.max_messages (q.current_message + 1);
  pending_messages = n;
}

step-receives-suc :
    (q : MessageQueue) (n : ℕ)
    → q.pending_messages ≡ suc n
    → IsValid q
    → step q receives ≡ ok (taken q n, received (some (q.message_buffer q.current_message)))
unfolding step try_receive_message receive_message_impl
step-receives-suc q n e v = ground (arith, v.current)

contents-suc :
    (q : MessageQueue) (n : ℕ)
    → q.pending_messages ≡ suc n
    → contents q ≡ q.message_buffer q.current_message ∷ contents (taken q n)
unfolding window
contents-suc q n e = ap (window q.message_buffer q.max_messages q.current_message) e

contents-zero : (q : MessageQueue) → q.pending_messages ≡ 0 → contents q ≡ []
unfolding window
contents-zero q e = ap (window q.message_buffer q.max_messages q.current_message) e

step-receives :
    (q : MessageQueue) (n : ℕ) → q.pending_messages ≡ n → IsValid q → Implements q receives
unfolding step try_receive_message
step-receives q zero e v =
    (q, rw (contents-zero q e) (ground arith), rw (contents-zero q e), refl, v)
step-receives q (suc n) e v = (
  taken q n,
  rw (contents-suc q n e) (step-receives-suc q n e v),
  rw (contents-suc q n e),
  refl,
  ground arith,
)

-- On a well-formed queue `TrySendMessage` and `TryReceiveMessage` return what a list bounded by the
-- capacity answers, refusals included, and leave the contents that the list then has.
pub step-Implements : (q : MessageQueue) (c : Op) → IsValid q → Implements q c
step-Implements q (sends m) v = step-sends q m v
step-Implements q receives v = step-receives q q.pending_messages refl v

abbrev pub spec_run : ℕ → List ℕ → List Op → List ℕ × List Answer
spec_run max xs [] = (xs, [])
spec_run max xs (c ∷ cs) =
    let rest = spec_run max (spec max xs c).0 cs in (rest.0, (spec max xs c).1 ∷ rest.1)

unfoldable pub run : MessageQueue → List Op → Run (MessageQueue × List Answer)
run q [] = ok (q, [])
run q (c ∷ cs) = step q c >>= λ r. run r.0 cs >>= λ s. ok (s.0, r.1 ∷ s.1)

run-spec_run_at :
    (q : MessageQueue) (max : ℕ) (xs : List ℕ) (cs : List Op)
    → q.max_messages ≡ max
    → contents q ≡ xs
    → IsValid q
    → (q' : MessageQueue) × (run q cs ≡ ok (q', (spec_run max xs cs).1))
      × (contents q' ≡ (spec_run max xs cs).0)
      × IsValid q'
unfolding run
run-spec_run_at q max xs [] m e v = (q, refl, e, v)
run-spec_run_at q max xs (c ∷ cs) m e v =
    let (q1, e1, c1, m1, v1) = step-Implements q c v in
    let same : (spec q.max_messages (contents q) c) ≡ spec max xs c = cc in
    let (q2, e2, c2, v2) =
      run-spec_run_at q1 max (spec max xs c).0 cs (m1 ∙ m) (c1 ∙ ap (λ r. r.0) same) v1 in
    (q2, rw (e1, e2, same), c2, v2)

-- Every sequence of `TrySendMessage` and `TryReceiveMessage` on a well-formed queue returns without
-- a fault, with the answers that the bounded list gives, oldest message first, and the contents
-- that it then has; the queue stays well formed.
pub run-spec_run :
    (q : MessageQueue) (cs : List Op)
    → IsValid q
    → (q' : MessageQueue) × (run q cs ≡ ok (q', (spec_run q.max_messages (contents q) cs).1))
      × (contents q' ≡ (spec_run q.max_messages (contents q) cs).0)
      × IsValid q'
run-spec_run q cs v = run-spec_run_at q q.max_messages (contents q) cs refl refl v

-- `SendMessage` waits exactly where `TrySendMessage` returns `false`, and otherwise leaves the
-- queue that `TrySendMessage` leaves.
pub send_message-try :
    (q q' : MessageQueue) (m : ℕ)
    → ((send_message q m ≡ ok blocks) ↔ (try_send_message q m ≡ ok (q, false)))
      × ((send_message q m ≡ ok (returns q')) ↔ (try_send_message q m ≡ ok (q', true)))
unfolding send_message try_send_message
send_message-try q q' m = ((ground arith, ground arith), (ground arith, ground arith))

-- `ReceiveMessage` waits exactly where `TryReceiveMessage` returns `false`, and otherwise takes the
-- message and leaves the queue that `TryReceiveMessage` does.
pub receive_message-try :
    (q q' : MessageQueue) (m : ℕ)
    → ((receive_message q ≡ ok blocks) ↔ (try_receive_message q ≡ ok (q, none)))
      × ((receive_message q ≡ ok (returns (q', m))) ↔ (try_receive_message q ≡ ok (q', some m)))
unfolding receive_message try_receive_message
receive_message-try q q' m = ((ground arith, ground arith), (ground arith, ground arith))
