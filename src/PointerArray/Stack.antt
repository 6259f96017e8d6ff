-- ===== src/PointerArray/Stack.antt =====
-- The pointers in use as a stack.
use dd_framework.Base.{
  ℕ, ◌+◌, ◌-◌, ◌%◌, ◌^◌, ◌<◌, ◌≡◌, refl, ok, fault, arith, update, lt→ltb, ==_refl, ==_ne, leb,
  true,
}
use dd_framework.PointerArray.{PointerArray, push_pointer, pop_pointer, get}

-- On an array with room left, `PushPointer` returns, its pointer is the last one and every other stays;
-- `PopPointer` then gives it back with the count as it was and its place null.
pub push-pop :
    (a : PointerArray) (pointer : ℕ)
    → a.used_pointers < a.max_pointers
    → a.max_pointers < 2 ^ 32
    → (b c : PointerArray) × (push_pointer a pointer ≡ ok b)
      × (get b a.used_pointers ≡ ok pointer)
      × ((i : ℕ) → i < a.used_pointers → get b i ≡ get a i)
      × (pop_pointer b ≡ ok (c, pointer))
      × (c.used_pointers ≡ a.used_pointers)
      × ((i : ℕ) → i < a.used_pointers → get c i ≡ get a i)
unfolding push_pointer pop_pointer get
push-pop a pointer room small =
    let u = a.used_pointers in
    let b : PointerArray = record a {
      pointer_array = update a.pointer_array u pointer;
      used_pointers = u + 1;
    } in
    let c : PointerArray = record b {
      pointer_array = update b.pointer_array u 0;
      used_pointers = u;
    } in
    let fits : leb u a.max_pointers ≡ true = ground arith in
    let grown : (u + 1) % 2 ^ 32 ≡ u + 1 = omega arith in
    let shrunk : (u + 1 + (2 ^ 32 - 1)) % 2 ^ 32 ≡ u = omega arith in
    (
      b,
      c,
      rw (fits, lt→ltb u a.max_pointers room, grown) refl,
      rw (lt→ltb u (u + 1) (omega arith), lt→ltb u a.max_pointers room, ==_refl u) refl,
      λ i h. rw (lt→ltb i (u + 1) (omega arith), lt→ltb i u h, ==_ne i u (omega arith)) refl,
      rw (shrunk, lt→ltb u a.max_pointers room, ==_refl u) refl,
      refl,
      λ i h. rw (lt→ltb i u h, ==_ne i u (omega arith)) refl,
    )

-- The assertion of `PushPointer` holds for a full array, where it writes past the last place.
pub push_pointer-full :
    (a : PointerArray) (pointer : ℕ)
    → a.used_pointers ≡ a.max_pointers
    → push_pointer a pointer ≡ fault
unfolding push_pointer
push_pointer-full a pointer full = ground arith

-- `PopPointer` of an empty array with fewer than 2^32 places reads out of bounds.
pub pop_pointer-empty :
    (a : PointerArray) → a.used_pointers ≡ 0 → a.max_pointers < 2 ^ 32 → pop_pointer a ≡ fault
unfolding pop_pointer
pop_pointer-empty a none small = ground arith
