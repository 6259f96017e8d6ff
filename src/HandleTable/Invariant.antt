-- ===== src/HandleTable/Invariant.antt =====
-- What every table holds after any sequence of operations of ukern_handletable.hpp.
use dd_framework.Base.{
  ℕ, zero, suc, ◌^◌, ◌≤◌, ◌<◌, ◌≡◌, ◌≢◌, refl, true, false, List, [], ◌∷◌, some, arith, ◌==◌,
  ==_refl, update, ok, Signed, pos, negsuc,
}
use dd_framework.HandleTable.{
  HandleTable, max_handles, null, previous, initialize_loop, initialize, reserve_handle, take_slot,
  give_slot, next_counter, make_handle,
}
use dd_framework.HandleTable.Slots.{
  has, Chain, Chain-update, live_count, live_count-update, live_count-le, live_count_full,
  live_count_none,
}

-- The counter of a live handle: it fits a signed field, and is not 0.
abbrev pub IsCounter : Signed → Type 0
IsCounter (pos c) = (1 ≤ c) × (c < 2 ^ 15)
IsCounter (negsuc _) = ⊥

pub record IsValid (t : HandleTable) (free : List ℕ) : Type 0 where
  pub chain : Chain t.counters t.indice_iter free
  pub free_iff : (i : ℕ) → i < max_handles → has i free ≡ (t.objects i == null)
  pub counted : t.active_handles ≡ live_count t.objects max_handles
  pub live : (i : ℕ) → i < max_handles → t.objects i ≢ null → IsCounter (t.counters i)
  pub counter_low : 1 ≤ t.counter_value
  pub counter_high : t.counter_value < 2 ^ 15

-- The slots below `n`, the last first.
abbrev pub slots_below : ℕ → List ℕ
slots_below zero = []
slots_below (suc n) = n ∷ slots_below n

has-slots_below : (n i : ℕ) → i < n → has i (slots_below n) ≡ true
has-slots_below zero i h = elim h [ ]
has-slots_below (suc n) i h = ground (arith, has-slots_below n i)

not_has-slots_below : (n i : ℕ) → n ≤ i → has i (slots_below n) ≡ false
not_has-slots_below zero i h = refl
not_has-slots_below (suc n) i h = ground (arith, not_has-slots_below n i)

module _ (t : HandleTable) where
  initialize_loop-counters : (n i : ℕ) → i < n → (initialize_loop n t).counters i ≡ previous i
  unfolding initialize_loop
  initialize_loop-counters zero i h = elim h [ ]
  initialize_loop-counters (suc n) i h = ground (arith, initialize_loop-counters n i)

  initialize_loop-objects : (n i : ℕ) → i < n → (initialize_loop n t).objects i ≡ null
  unfolding initialize_loop
  initialize_loop-objects zero i h = elim h [ ]
  initialize_loop-objects (suc n) i h = ground (arith, initialize_loop-objects n i)

  initialize_loop-iter : (n : ℕ) → (initialize_loop (suc n) t).indice_iter ≡ pos n
  unfolding initialize_loop
  initialize_loop-iter n = refl

  initialize_loop-kept :
      (n : ℕ)
      → ((initialize_loop n t).active_handles ≡ t.active_handles)
        × ((initialize_loop n t).counter_value ≡ t.counter_value)
  unfolding initialize_loop
  initialize_loop-kept zero = (refl, refl)
  initialize_loop-kept (suc n) = initialize_loop-kept n

Chain-previous :
    (c : ℕ → Signed) (n : ℕ)
    → n ≤ max_handles
    → ((i : ℕ) → i < n → c i ≡ previous i)
    → Chain c (previous n) (slots_below n)
Chain-previous c zero h same = refl
Chain-previous c (suc n) h same = (
  refl,
  omega arith,
  not_has-slots_below n n (omega arith),
  rw (same n (omega arith)) (Chain-previous c n (omega arith) (λ i lt. same i (omega arith))),
)

-- The rounds are a variable here, so that nothing counts to 256.
initialize_loop-IsValid :
    (n : ℕ) (t : HandleTable)
    → n ≡ suc 255
    → t.active_handles ≡ 0
    → t.counter_value ≡ 1
    → IsValid (initialize_loop n t) (slots_below n)
unfolding initialize_loop
initialize_loop-IsValid zero t e a c = absurd (omega arith)
initialize_loop-IsValid (suc n) t e a c = record {
  chain =
      Chain-previous (initialize_loop (suc n) t).counters (suc n) (omega arith)
        (initialize_loop-counters t (suc n));
  free_iff = λ i h.
      rw (initialize_loop-objects t (suc n) i (omega arith))
        (has-slots_below (suc n) i (omega arith));
  counted = omega (
    arith,
    (initialize_loop-kept t (suc n)).0,
    live_count_none (initialize_loop (suc n) t).objects max_handles
        (λ i h. initialize_loop-objects t (suc n) i (omega arith)),
  );
  live = λ i h ne. absurd (ne (initialize_loop-objects t (suc n) i (omega arith)));
  counter_low = omega (arith, (initialize_loop-kept t (suc n)).1);
  counter_high = omega (arith, (initialize_loop-kept t (suc n)).1);
}

-- After `Initialize` every slot is free, whatever the fields held before.
pub initialize-IsValid : (t : HandleTable) → IsValid (initialize t) (slots_below max_handles)
unfolding initialize
initialize-IsValid t =
    initialize_loop-IsValid max_handles (record t { active_handles = 0; counter_value = 1 }) refl
      refl refl

next_counter_bounds :
    (c : ℕ) → 1 ≤ c → c < 2 ^ 15 → (1 ≤ next_counter c) × (next_counter c < 2 ^ 15)
next_counter_bounds c l h = ground arith

module _ {t : HandleTable} where
  -- With a slot left the free list is not empty.
  pub free_slot :
      (free : List ℕ)
      → IsValid t free
      → t.active_handles < max_handles
      → (x : ℕ) × (xs : List ℕ) × (free ≡ x ∷ xs)
  free_slot (x ∷ xs) v h = (x, xs, refl)
  free_slot [] v h = absurd (
      omega (
        arith,
        v.counted,
        live_count_full t.objects max_handles (λ i lt e. ground (arith, v.free_iff i lt)),
      ))

  module _ (x : ℕ) (xs : List ℕ) (object : ℕ) (v : IsValid t (x ∷ xs)) where
    pub free_slot_left : t.active_handles < max_handles
    free_slot_left = ground (
      arith,
      live_count-update t.objects x 1 max_handles,
      live_count-le (update t.objects x 1) max_handles,
      v.free_iff x,
    )

    pub reserve-take_slot :
        t.active_handles < max_handles
        → reserve_handle t object ≡ ok (take_slot t x object, some (make_handle x t.counter_value))
    unfolding reserve_handle
    reserve-take_slot h = ground arith

    pub take_slot-IsValid :
        t.active_handles < max_handles → object ≢ null → IsValid (take_slot t x object) xs
    take_slot-IsValid h ne = record {
      chain = Chain-update t.counters (t.counters x) xs x _ v.chain.2 v.chain.3;
      free_iff = λ i lt. ground (arith, v.free_iff i lt);
      counted = ground (
        arith,
        live_count-update t.objects x object max_handles,
        v.free_iff x,
        live_count-le t.objects max_handles,
      );
      live = λ i lt lives. ground (arith, v.live i lt);
      counter_low = (next_counter_bounds t.counter_value v.counter_low v.counter_high).0;
      counter_high = (next_counter_bounds t.counter_value v.counter_low v.counter_high).1;
    }

  module _ (free : List ℕ) (index : ℕ) (v : IsValid t free) where
    pub give_slot-IsValid :
        index < max_handles → t.objects index ≢ null → IsValid (give_slot t index) (index ∷ free)
    give_slot-IsValid h ne = record {
      chain = (
        refl,
        h,
        ground (arith, v.free_iff index h),
        rw (==_refl index) (
            Chain-update t.counters t.indice_iter free index _ (ground (arith, v.free_iff index h))
              v.chain),
      );
      free_iff = λ i lt. ground (arith, v.free_iff i lt);
      counted = ground (
        arith,
        live_count-update t.objects index null max_handles,
        live_count-le t.objects max_handles,
      );
      live = λ i lt lives. ground (arith, v.live i lt);
      counter_low = v.counter_low;
      counter_high = v.counter_high;
    }
