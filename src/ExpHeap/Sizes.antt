-- ===== src/ExpHeap/Sizes.antt =====
-- The queries and the growth of an allocation.
use dd_framework.Base.{
  ℕ, ◌+◌, ◌-◌, ◌^◌, ◌≤◌, ◌<◌, ◌≡◌, ◌∙◌, refl, ap, List, [], ◌∷◌, ltb, Bool-cases, ◌⊎◌, inl, inr,
  pos, to_u64, arith, add64, ok,
}
use native.Mathlib.Nat.{pow-le-pow_right}
use dd_framework.Alignment.{align_up}
use dd_framework.Alignment.Multiple.{align_up_lem}
use dd_framework.IntrusiveList.Ring.{Ring, length}
use dd_framework.IntrusiveList.Members.{In}
use dd_framework.ExpHeap.State.{Memory, ExpHeap, header_size}
use dd_framework.ExpHeap.Allocate.{
  sum_sizes, get_total_free_size, aligned_size, largest, get_maximum_allocatable_size,
}
use dd_framework.ExpHeap.Never.{free_blocks-Ring}

-- The free bytes.
abbrev pub total : Memory → List ℕ → ℕ
total m [] = 0
total m (x ∷ xs) = (m.blocks x).block_size + total m xs

sum_sizes-total :
    (m : Memory) (xs : List ℕ) (acc : ℕ)
    → acc + total m xs < 2 ^ 64
    → sum_sizes m xs acc ≡ acc + total m xs
unfolding sum_sizes
sum_sizes-total m [] acc h = omega arith
sum_sizes-total m (x ∷ xs) acc h =
    let e : add64 acc (m.blocks x).block_size ≡ acc + (m.blocks x).block_size = omega arith in
    rw e (omega (arith, sum_sizes-total m xs (acc + (m.blocks x).block_size) (omega arith)))

largest-ge : (m : Memory) (alignment : ℕ) (xs : List ℕ) (acc : ℕ) → acc ≤ largest m alignment xs acc
unfolding largest
largest-ge m alignment [] acc = omega arith
largest-ge m alignment (x ∷ xs) acc =
    ground
      (arith, largest-ge m alignment xs acc, largest-ge m alignment xs (aligned_size m alignment x))

largest-In :
    (m : Memory) (alignment x : ℕ) (xs : List ℕ) (acc : ℕ)
    → In x xs
    → aligned_size m alignment x ≤ largest m alignment xs acc
unfolding largest
largest-In m alignment x [] acc i = absurd i
largest-In m alignment x (y ∷ xs) acc (inl e) = rw e (
    ground (
      arith,
      largest-ge m alignment xs acc,
      largest-ge m alignment xs (aligned_size m alignment y),
    ))
largest-In m alignment x (y ∷ xs) acc (inr i) = largest-In m alignment x xs _ i

largest-attained :
    (m : Memory) (alignment : ℕ) (xs : List ℕ) (acc : ℕ)
    → (largest m alignment xs acc ≡ acc)
      ⊎ ((x : ℕ) × In x xs × (largest m alignment xs acc ≡ aligned_size m alignment x))
unfolding largest
largest-attained m alignment [] acc = inl refl
largest-attained m alignment (x ∷ xs) acc =
    elim (Bool-cases (ltb acc (aligned_size m alignment x))) [
      | inl e ↦ rw e (elim (largest-attained m alignment xs (aligned_size m alignment x)) [
        | inl q ↦ inr (x, inl refl, q)
        | inr found ↦ inr (found.0, inr found.1, found.2)
      ])
      | inr e ↦ rw e (elim (largest-attained m alignment xs acc) [
        | inl q ↦ inl q
        | inr found ↦ inr (found.0, inr found.1, found.2)
      ])
    ]

-- The padding before the first aligned address of a block is longer than the block.
abbrev pub TooShort : Memory → ℕ → ℕ → Type 0
TooShort m alignment x =
    x + header_size + (m.blocks x).block_size < align_up (x + header_size) alignment

aligned_size-short :
    (m : Memory) (k x : ℕ)
    → k < 64
    → x + header_size + 2 ^ k ≤ 2 ^ 64
    → TooShort m (2 ^ k) x
    → 2 ^ 64 - 2 ^ k < aligned_size m (2 ^ k) x
unfolding aligned_size
aligned_size-short m k x small fits short =
    let up = align_up_lem k (x + header_size) small fits in
    let start : add64 x header_size ≡ x + header_size = omega arith in
    rw start (omega (arith, up.near, up.above))

-- What an allocation at an aligned address can take of a block.
abbrev pub available : Memory → ℕ → ℕ → ℕ
available m alignment x =
    x + header_size + (m.blocks x).block_size - align_up (x + header_size) alignment

-- A block in the address space with room behind its padding.
abbrev pub IsLong : Memory → ℕ → ℕ → Type 0
IsLong m alignment x =
    (x + header_size + (m.blocks x).block_size < 2 ^ 64)
    × (align_up (x + header_size) alignment ≤ x + header_size + (m.blocks x).block_size)

aligned_size-long :
    (m : Memory) (alignment x : ℕ)
    → IsLong m alignment x
    → aligned_size m alignment x ≡ available m alignment x
unfolding aligned_size
aligned_size-long m alignment x long =
    let start : add64 x header_size ≡ x + header_size = omega arith in
    let end : add64 (x + header_size) (m.blocks x).block_size
        ≡ x + header_size + (m.blocks x).block_size =
      omega arith in
    rw (start, end) (omega arith)

module _ (h : ExpHeap) (m : Memory) (rounds : ℕ) (xs : List ℕ)
    (ring : Ring m.nodes h.free_block_list xs) (enough : length xs < rounds) where
  -- `GetTotalFreeSize` is the sum of the sizes of the free blocks, where it is below 2^64.
  pub get_total_free_size_lem :
      total m xs < 2 ^ 64 → get_total_free_size h m rounds ≡ ok (total m xs)
  unfolding get_total_free_size
  get_total_free_size_lem small =
      rw (free_blocks-Ring h m rounds xs ring enough, sum_sizes-total m xs 0 (omega arith))
        (ap ok (omega arith))

  -- `GetMaximumAllocatableSize` of a power of two below 2^31 returns more than 2^64 less the
  -- alignment as soon as one free block is shorter than the padding that its start needs.
  get_maximum_allocatable_size-short :
      (k x : ℕ)
      → k < 31
      → In x xs
      → x + header_size + 2 ^ k ≤ 2 ^ 64
      → TooShort m (2 ^ k) x
      → (r : ℕ) × (get_maximum_allocatable_size h m rounds (pos (2 ^ k)) ≡ ok r)
        × (2 ^ 64 - 2 ^ k < r)
  unfolding get_maximum_allocatable_size
  get_maximum_allocatable_size-short k x small member fits short =
      let e : to_u64 (pos (2 ^ k)) ≡ 2 ^ k =
        omega (arith, pow-le-pow_right {n = 2} (omega arith) {i = k} {j = 30} (omega arith)) in
      (
        largest m (2 ^ k) xs 0,
        rw (free_blocks-Ring h m rounds xs ring enough, e),
        omega (
          arith,
          aligned_size-short m k x (omega arith) fits short,
          largest-In m (2 ^ k) x xs 0 member,
        ),
      )

  -- Where every free block has room behind its padding, `GetMaximumAllocatableSize` returns the
  -- most that can be taken of one of them, and 0 only if that is the most.
  pub get_maximum_allocatable_size_lem :
      (alignment : ℕ)
      → alignment < 2 ^ 31
      → ((x : ℕ) → In x xs → IsLong m alignment x)
      → (r : ℕ) × (get_maximum_allocatable_size h m rounds (pos alignment) ≡ ok r)
        × ((x : ℕ) → In x xs → available m alignment x ≤ r)
        × ((r ≡ 0) ⊎ ((x : ℕ) × In x xs × (r ≡ available m alignment x)))
  unfolding get_maximum_allocatable_size
  get_maximum_allocatable_size_lem alignment small long =
      let e : to_u64 (pos alignment) ≡ alignment = omega arith in
      (
        largest m alignment xs 0,
        rw (free_blocks-Ring h m rounds xs ring enough, e),
        (λ x i.
            omega
              (arith, largest-In m alignment x xs 0 i, aligned_size-long m alignment x (long x i))),
        elim (largest-attained m alignment xs 0) [
          | inl q ↦ inl q
          | inr found ↦ inr (
            found.0,
            found.1,
            found.2 ∙ aligned_size-long m alignment found.0 (long found.0 found.1),
          )
        ],
      )
