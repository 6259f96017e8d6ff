-- ===== src/HandleTable/Slots.antt =====
-- The free list of the table as a list of slots, and the number of slots in use.
use dd_framework.Base.{
  ℕ, zero, suc, ◌+◌, ◌≤◌, ◌<◌, ◌≡◌, ◌≢◌, refl, Bool, false, ◌||◌, List, [], ◌∷◌, arith, ◌==◌,
  if◌then◌else◌, update, Signed, pos, negsuc,
}
use dd_framework.HandleTable.{max_handles}

abbrev pub has : ℕ → List ℕ → Bool
has a [] = false
has a (x ∷ xs) = a == x || has a xs

-- From the link `it` the counter fields lead through the distinct slots of the list to -1.
abbrev pub Chain : (ℕ → Signed) → Signed → List ℕ → Type 0
Chain c it [] = it ≡ negsuc 0
Chain c it (x ∷ xs) = (it ≡ pos x) × (x < max_handles) × (has x xs ≡ false) × Chain c (c x) xs

pub Chain-update :
    (c : ℕ → Signed) (it : Signed) (xs : List ℕ) (i : ℕ) (v : Signed)
    → has i xs ≡ false
    → Chain c it xs
    → Chain (update c i v) it xs
Chain-update c it [] i v out h = h
Chain-update c it (x ∷ xs) i v out h =
    ground (arith, Chain-update c (c x) xs i v (ground arith) h.3)

-- The slots below `n` that hold an object.
pub live_count : (ℕ → ℕ) → ℕ → ℕ
live_count o zero = 0
live_count o (suc n) = (if o n == 0 then 0 else 1) + live_count o n

module _ (o : ℕ → ℕ) (i v : ℕ) where
  live_count-update_above : (n : ℕ) → n ≤ i → live_count (update o i v) n ≡ live_count o n
  unfolding live_count
  live_count-update_above zero h = refl
  live_count-update_above (suc n) h = ground (arith, live_count-update_above n (omega arith))

  -- A write changes the count by what it changes at its own slot.
  pub live_count-update :
      (n : ℕ)
      → i < n
      → live_count (update o i v) n + (if o i == 0 then 0 else 1)
        ≡ live_count o n + (if v == 0 then 0 else 1)
  unfolding live_count
  live_count-update zero h = elim h [ ]
  live_count-update (suc n) h = ground (arith, live_count-update n, live_count-update_above n)

pub live_count-le : (o : ℕ → ℕ) (n : ℕ) → live_count o n ≤ n
unfolding live_count
live_count-le o zero = omega arith
live_count-le o (suc n) = ground (arith, live_count-le o n)

pub live_count_full : (o : ℕ → ℕ) (n : ℕ) → ((i : ℕ) → i < n → o i ≢ 0) → live_count o n ≡ n
unfolding live_count
live_count_full o zero h = refl
live_count_full o (suc n) h =
    ground (arith, h n (omega arith), live_count_full o n (λ i lt. h i (omega arith)))

pub live_count_none : (o : ℕ → ℕ) (n : ℕ) → ((i : ℕ) → i < n → o i ≡ 0) → live_count o n ≡ 0
unfolding live_count
live_count_none o zero h = refl
live_count_none o (suc n) h =
    ground (arith, h n (omega arith), live_count_none o n (λ i lt. h i (omega arith)))
