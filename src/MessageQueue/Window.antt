-- ===== src/MessageQueue/Window.antt =====
-- What the circular buffer of util_messagequeue.hpp holds, oldest first.
use dd_framework.Base.{
  ℕ, zero, suc, ◌+◌, ◌-◌, ◌<◌, ◌≡◌, List, [], ◌∷◌, ◌++◌, arith, leb, if◌then◌else◌, update,
}

-- An index that has run past the end once.
abbrev pub wrap : ℕ → ℕ → ℕ
wrap max i = if leb max i then i - max else i

-- The `n` words from `current` on.
unfoldable pub window : (ℕ → ℕ) → ℕ → ℕ → ℕ → List ℕ
window buffer max current zero = []
window buffer max current (suc n) = buffer current ∷ window buffer max (wrap max (current + 1)) n

-- A write right behind the window, which does not fill the buffer, makes it one word longer.
pub window-update :
    (buffer : ℕ → ℕ) (max current n message : ℕ)
    → current < max
    → n < max
    → window (update buffer (wrap max (n + current)) message) max current (suc n)
      ≡ window buffer max current n ++ message ∷ []
unfolding window
window-update buffer max current zero message h k = ground arith
window-update buffer max current (suc n) message h k =
    ground (arith, window-update buffer max (wrap max (current + 1)) n message)
