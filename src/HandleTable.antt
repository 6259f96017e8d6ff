-- ===== src/HandleTable.antt =====
-- libraries/lib_dd/include/dd/ukern/ukern_handletable.hpp: the table that gives out 32-bit handles for
-- fibers. A handle holds the slot's index in its low 15 bits and a counter above them; a free slot's
-- counter field links to the next free slot. Each operation runs under the table's mutex, so it is
-- one step of the table.
pub mod Slots
pub mod Invariant
pub mod Lookup
pub mod History
mod Tests
use dd_framework.Base.{
  ℕ, zero, suc, ◌+◌, ◌-◌, ◌*◌, ◌/◌, ◌%◌, ◌^◌, Bool, true, false, Option, none, some, ltb, leb, ◌==◌,
  if◌then◌else◌, ◌||◌, update, Run, ok, ◌>>◌, require, Signed, pos, negsuc, to_u16, to_u32, to_s16,
}

abbrev pub max_handles : ℕ
max_handles = 256

-- A null object is 0.
abbrev pub null : ℕ
null = 0

pub record HandleTable : Type 0 where
  pub counters : ℕ → Signed
  pub objects : ℕ → ℕ
  pub indice_iter : Signed
  pub active_handles : ℕ
  pub counter_value : ℕ

-- `i - 1` as the loop of `Initialize` stores it.
abbrev pub previous : ℕ → Signed
previous zero = negsuc 0
previous (suc i) = pos i

abbrev initialize_slot : ℕ → HandleTable → HandleTable
initialize_slot i t = record t {
  objects = update t.objects i null;
  counters = update t.counters i (previous i);
  indice_iter = pos i;
}

-- The first `n` rounds of the loop.
initialize_loop : ℕ → HandleTable → HandleTable
initialize_loop zero t = t
initialize_loop (suc i) t = initialize_slot i (initialize_loop i t)

unfoldable pub initialize : HandleTable → HandleTable
unfolding initialize_loop
initialize t = initialize_loop max_handles (record t { active_handles = 0; counter_value = 1 })

-- `(index & 0x7fff) | (counter << CounterBitOffset)`; the two parts have no bit in common, and
-- `s32` shifted left wraps at 32 bits.
abbrev pub make_handle : ℕ → ℕ → ℕ
make_handle index counter = index % 2 ^ 15 + counter * 2 ^ 15 % 2 ^ 32

abbrev pub handle_index : ℕ → ℕ
handle_index handle = handle % 2 ^ 15

abbrev pub handle_counter : ℕ → ℕ
handle_counter handle = handle / 2 ^ 15

-- `-1 < static_cast<s16>(m_counter_value + 1)` picks the successor, else 1.
abbrev pub next_counter : ℕ → ℕ
next_counter c = elim (to_s16 ((c + 1) % 2 ^ 16)) [ pos _ ↦ (c + 1) % 2 ^ 16 | negsuc _ ↦ 1 ]

-- The writes of `ReserveHandle`, at the slot that the free list begins with.
abbrev take_slot : HandleTable → ℕ → ℕ → HandleTable
take_slot t index object = record t {
  indice_iter = t.counters index;
  counters = update t.counters index (to_s16 t.counter_value);
  objects = update t.objects index object;
  active_handles = (t.active_handles + 1) % 2 ^ 16;
  counter_value = next_counter t.counter_value;
}

-- The table afterwards, and the handle unless the result is `false`.
unfoldable pub reserve_handle : HandleTable → ℕ → Run (HandleTable × Option ℕ)
reserve_handle t object = if leb max_handles t.active_handles then ok (t, none) else do
  let index = to_u16 t.indice_iter
  require (ltb index max_handles)
  ok (take_slot t index object, some (make_handle index t.counter_value))

-- The writes of `FreeHandle`.
abbrev give_slot : HandleTable → ℕ → HandleTable
give_slot t index = record t {
  objects = update t.objects index null;
  counters = update t.counters index t.indice_iter;
  indice_iter = pos index;
  active_handles = (t.active_handles + (2 ^ 16 - 1)) % 2 ^ 16;
}

-- The tests after the first pair, at an index that is not above `MaxHandles`. The slot at
-- `MaxHandles` itself does not exist.
abbrev release_slot : HandleTable → ℕ → ℕ → HandleTable × Bool
release_slot t index counter =
    if t.objects index == null || (if counter == to_u32 (t.counters index) then false else true)
    then (t, false)
    else (give_slot t index, true)

unfoldable pub free_handle : HandleTable → ℕ → Run (HandleTable × Bool)
free_handle t handle =
    if handle == 0 || handle_counter handle == 0
    then ok (t, false)
    else if ltb max_handles (handle_index handle)
    then ok (t, false)
    else do
      require (ltb (handle_index handle) max_handles)
      ok (release_slot t (handle_index handle) (handle_counter handle))

unfoldable pub get_object_by_handle : HandleTable → ℕ → Run ℕ
get_object_by_handle t handle =
    if (if handle / 2 ^ 30 == 0 then false else true) || (handle == 0 || handle_counter handle == 0)
    then ok null
    else if ltb max_handles (handle_index handle)
    then ok null
    else do
      require (ltb (handle_index handle) max_handles)
      if handle_counter handle == to_u32 (t.counters (handle_index handle))
          then ok (t.objects (handle_index handle))
          else ok null
