-- ===== src/ExpHeap/Never.antt =====
-- What `TryAllocate` returns.
use dd_framework.Base.{
  ℕ, ◌-◌, ◌^◌, ◌<◌, ◌≡◌, ◌≢◌, refl, Bool, true, false, ◌&&◌, ◌||◌, List, [], ◌∷◌, Option, none,
  some, ltb, ◌==◌, Bool-cases, inl, inr, Signed, ◌∙◌, arith, ℕ_discrete, ok, fault,
}
use dd_framework.Alignment.{align_up}
use dd_framework.IntrusiveList.Ring.{Ring, length}
use dd_framework.IntrusiveList.Loop.{visit-Ring}
use dd_framework.IntrusiveList.Moves.{is_empty-Ring}
use dd_framework.IntrusiveList.{is_empty}
use dd_framework.ExpHeap.State.{
  Memory, ExpHeap, is_address_in_heap, minimum_granularity, free_blocks,
}
use dd_framework.ExpHeap.Blocks.{add_used_block}
use dd_framework.ExpHeap.Allocate.{
  fits, first_fit, best_fit_loop, Smaller, find_block, convert_block, enforce_alignment,
  try_allocate,
}

-- The sizes of the blocks are below `SIZE_MAX`.
abbrev pub Bounded : Memory → List ℕ → Type 0
Bounded m [] = Unit {0}
Bounded m (x ∷ xs) = ((m.blocks x).block_size < 2 ^ 64 - 1) × Bounded m xs

-- Whether an allocation of a size and alignment fits into one of the blocks.
abbrev pub any_fits : Memory → ℕ → ℕ → List ℕ → Bool
any_fits m size alignment [] = false
any_fits m size alignment (x ∷ xs) = fits m size alignment x || any_fits m size alignment xs

abbrev found : Option ℕ × ℕ → Bool
found (none, address) = false
found (some block, address) = true

first_fit-found :
    (m : Memory) (size alignment : ℕ) (xs : List ℕ) (address : ℕ)
    → found (first_fit m size alignment xs address) ≡ any_fits m size alignment xs
unfolding first_fit
first_fit-found m size alignment [] address = refl
first_fit-found m size alignment (x ∷ xs) address = elim (Bool-cases (fits m size alignment x)) [
  | inl e ↦ rw e
  | inr e ↦ rw e (first_fit-found m size alignment xs _)
]

best_fit_loop-some :
    (m : Memory) (size alignment : ℕ) (xs : List ℕ) (best : Smaller) (b : ℕ)
    → best.smaller_block ≡ some b
    → found (best_fit_loop m size alignment xs best) ≡ true
unfolding best_fit_loop
best_fit_loop-some m size alignment [] best b e = rw e
best_fit_loop-some m size alignment (x ∷ xs) best b e =
    elim (Bool-cases (ltb (m.blocks x).block_size best.smaller_size && fits m size alignment x)) [
      | inl better ↦ rw better (elim (Bool-cases ((m.blocks x).block_size == size)) [
        | inl exact ↦ rw exact
        | inr other ↦ rw other (best_fit_loop-some m size alignment xs _ x refl)
      ])
      | inr worse ↦ rw worse (best_fit_loop-some m size alignment xs best b e)
    ]

best_fit_loop-found :
    (m : Memory) (size alignment : ℕ) (xs : List ℕ) (best : Smaller)
    → best.smaller_block ≡ none
    → best.smaller_size ≡ 2 ^ 64 - 1
    → Bounded m xs
    → found (best_fit_loop m size alignment xs best) ≡ any_fits m size alignment xs
unfolding best_fit_loop
best_fit_loop-found m size alignment [] best e l bounded = rw e
best_fit_loop-found m size alignment (x ∷ xs) best e l bounded =
    let below : ltb (m.blocks x).block_size best.smaller_size ≡ true = ground (arith, l) in
    elim (Bool-cases (fits m size alignment x)) [
      | inl fit ↦
          rw (below, fit)
            (elim (Bool-cases ((m.blocks x).block_size == size)) [
              | inl exact ↦ rw exact
              | inr other ↦ rw other (best_fit_loop-some m size alignment xs _ x refl)
            ])
      | inr no_fit ↦ rw (below, no_fit) (best_fit_loop-found m size alignment xs best e l bounded.1)
    ]

find_block-found :
    (h : ExpHeap) (m : Memory) (size alignment : ℕ) (xs : List ℕ)
    → Bounded m xs
    → found (find_block h m size alignment xs) ≡ any_fits m size alignment xs
unfolding find_block
find_block-found h m size alignment xs bounded = elim (Bool-cases h.best_fit) [
  | inl best ↦ rw best (best_fit_loop-found m size alignment xs _ refl refl bounded)
  | inr first ↦ rw first (first_fit-found m size alignment xs 0)
]

-- The root of the free list is no block.
convert_block-none :
    (h : ExpHeap) (m : Memory) (size : ℕ) (r : Option ℕ × ℕ)
    → is_address_in_heap h h.free_block_list ≡ false
    → found r ≡ false
    → convert_block h m size r ≡ fault
unfolding convert_block add_used_block
convert_block-none h m size (none, address) out e = rw out
convert_block-none h m size (some b, address) out e = absurd (cc)

convert_block-some :
    (h : ExpHeap) (m : Memory) (size : ℕ) (r : Option ℕ × ℕ)
    → found r ≡ true
    → convert_block h m size r ≡ ok (m, 0)
unfolding convert_block
convert_block-some h m size (none, address) e = absurd (cc)
convert_block-some h m size (some b, address) e = refl

pub free_blocks-Ring :
    (h : ExpHeap) (m : Memory) (rounds : ℕ) (xs : List ℕ)
    → Ring m.nodes h.free_block_list xs
    → length xs < rounds
    → free_blocks h m rounds ≡ ok xs
unfolding free_blocks
free_blocks-Ring h m rounds xs ring enough =
    rw (visit-Ring ℕ_discrete m.nodes h.free_block_list xs rounds ring enough)

module _ (h : ExpHeap) (m : Memory) (rounds : ℕ) (xs : List ℕ)
    (ring : Ring m.nodes h.free_block_list xs) (enough : length xs < rounds)
    (root_out : is_address_in_heap h h.free_block_list ≡ false) (bounded : Bounded m xs) where
  -- Where the free list is well formed, its root lies outside of the heap's range and its blocks are
  -- smaller than `SIZE_MAX`, with more rounds than there are blocks: `TryAllocate` returns null and
  -- changes nothing where the list is empty or some block fits, in either mode; where blocks are
  -- free and none fits, it uses the list's root as a block.
  pub try_allocate-null :
      (size : ℕ) (alignment : Signed)
      → (any_fits m (align_up size minimum_granularity) (enforce_alignment alignment) xs ≡ true
          → try_allocate h m rounds size alignment ≡ ok (m, 0))
        × (xs ≡ [] → try_allocate h m rounds size alignment ≡ ok (m, 0))
        × (xs ≢ []
            → any_fits m (align_up size minimum_granularity) (enforce_alignment alignment) xs
              ≡ false
            → try_allocate h m rounds size alignment ≡ fault)
  unfolding try_allocate
  try_allocate-null size alignment =
      let size' = align_up size minimum_granularity in
      let alignment' = enforce_alignment alignment in
      let search = find_block-found h m size' alignment' xs bounded in
      let blocks = free_blocks-Ring h m rounds xs ring enough in
      let empty = is_empty-Ring ℕ_discrete m.nodes h.free_block_list xs ring in
      (
        (λ fit. elim (Bool-cases (is_empty ℕ_discrete m.nodes h.free_block_list)) [
          | inl e ↦ rw e
          | inr e ↦ rw (e, blocks) (convert_block-some h m size' _ (search ∙ fit))
        ]),
        (λ none_free. rw (empty.1 none_free)),
        λ some_free no_fit. elim (Bool-cases (is_empty ℕ_discrete m.nodes h.free_block_list)) [
          | inl e ↦ absurd (some_free (empty.0 e))
          | inr e ↦ rw (e, blocks) (convert_block-none h m size' _ root_out (search ∙ no_fit))
        ],
      )
