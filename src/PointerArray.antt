-- ===== src/PointerArray.antt =====
-- libraries/lib_dd/include/dd/util/util_pointerarray.hpp: a stack of pointers in an array of
-- `max_pointers` places. An access past them is a fault; the counts are `u32`.
pub mod Stack
use dd_framework.Base.{
  ℕ, ◌+◌, ◌-◌, ◌%◌, ◌^◌, Bool, not, ◌&&◌, ltb, leb, ◌==◌, if◌then◌else◌, update, Run, ok, ◌>>=◌,
  ◌>>◌, require,
}

pub record PointerArray : Type 0 where
  pub pointer_array : ℕ → ℕ
  pub used_pointers : ℕ
  pub max_pointers : ℕ

-- `SetBuffer`, with what the buffer holds; null is 0.
unfoldable pub set_buffer : ℕ → (ℕ → ℕ) → ℕ → Run PointerArray
set_buffer pointer_buffer held pointer_count = do
  require (not (pointer_buffer == 0) && not (pointer_count == 0))
  ok (record { pointer_array = held; used_pointers = 0; max_pointers = pointer_count })

unfoldable pub get : PointerArray → ℕ → Run ℕ
get a index = do
  require (ltb index a.used_pointers)
  require (ltb index a.max_pointers)
  ok (a.pointer_array index)

-- The assertion, and then the bound of the array.
unfoldable pub push_pointer : PointerArray → ℕ → Run PointerArray
push_pointer a pointer = do
  require (leb a.used_pointers a.max_pointers)
  require (ltb a.used_pointers a.max_pointers)
  ok (record a {
    pointer_array = update a.pointer_array a.used_pointers pointer;
    used_pointers = (a.used_pointers + 1) % 2 ^ 32;
  })

-- `m_used_pointers - 1`, which wraps where the array is empty.
abbrev pub top_index : PointerArray → ℕ
top_index a = (a.used_pointers + (2 ^ 32 - 1)) % 2 ^ 32

unfoldable pub pop_pointer : PointerArray → Run (PointerArray × ℕ)
pop_pointer a = do
  require (ltb (top_index a) a.max_pointers)
  ok (
    record a {
      pointer_array = update a.pointer_array (top_index a) 0;
      used_pointers = top_index a;
    },
    a.pointer_array (top_index a),
  )
