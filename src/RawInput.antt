-- ===== src/RawInput.antt =====
-- libraries/lib_dd/include/dd/hid/hid_rawinput.h and source/hid/hid_rawinput.cpp: the keys and the
-- keyboard. A set of keys is four words of 64 bits. `<<` shifts an `int` of 32 bits, so a shift by 32
-- or more is undefined, and one by 31 gives a negative number.
pub mod Keys
pub mod Refines
pub mod Held
pub mod Mouse
pub mod Buttons
mod Tests
use Prim.Native.Nat.{bit_and, bit_or}
use dd_framework.Base.{
  ℕ, ◌+◌, ◌-◌, ◌/◌, ◌%◌, ◌^◌, Bool, true, false, List, [], ◌∷◌, ltb, ◌==◌, if◌then◌else◌, update,
  Run, ok, fault, ◌>>=◌,
}

-- `state_array`.
abbrev pub KeyState : Type 0
KeyState = ℕ → ℕ

abbrev pub key_or : KeyState → KeyState → KeyState
key_or a b i = bit_or (a i) (b i)

abbrev pub key_and : KeyState → KeyState → KeyState
key_and a b i = bit_and (a i) (b i)

abbrev pub word_not : ℕ → ℕ
word_not w = 2 ^ 64 - 1 - w

abbrev pub key_not : KeyState → KeyState
key_not a i = word_not (a i)

abbrev pub no_keys : KeyState
no_keys i = 0

-- `1 << (vk_code % 64)`, converted to `u64`.
abbrev pub key_pos : ℕ → Run ℕ
key_pos vk_code =
    let shift = vk_code % 64 in
    if ltb shift 31 then ok (2 ^ shift) else if shift == 31 then ok (2 ^ 64 - 2 ^ 31) else fault

abbrev pub key_index : ℕ → ℕ
key_index vk_code = vk_code / 64

unfoldable pub get_key_state : KeyState → ℕ → Run Bool
get_key_state s vk_code = do pos ← key_pos vk_code; ok (bit_and (s (key_index vk_code)) pos == pos)

unfoldable pub set_key_state : KeyState → ℕ → Run KeyState
set_key_state s vk_code = do
  pos ← key_pos vk_code
  ok (update s (key_index vk_code) (bit_or (s (key_index vk_code)) pos))

unfoldable pub clear_key_state : KeyState → ℕ → Run KeyState
clear_key_state s vk_code = do
  pos ← key_pos vk_code
  ok (update s (key_index vk_code) (bit_and (s (key_index vk_code)) (word_not pos)))

-- The keyboard's variables, and `frame_keyboard_state`.
pub record Keyboard : Type 0 where
  pub pressed_state : KeyState
  pub pressed_state_last : KeyState
  pub released_state : KeyState
  pub released_state_last : KeyState
  pub aheld_state : KeyState
  pub pressed_keys : KeyState
  pub held_keys : KeyState
  pub released_keys : KeyState

abbrev pub ri_key_make : ℕ
ri_key_make = 0

abbrev pub ri_key_break : ℕ
ri_key_break = 1

-- The conversion of the raw input's 16-bit key to the `u8` that `SetKeyState` and `ClearKeyState` take.
abbrev pub vk_of : ℕ → ℕ
vk_of v_key = v_key % 2 ^ 8

-- `SetKeyboardState` on the flags and the key of the raw input.
unfoldable pub set_keyboard_state : Keyboard → ℕ → ℕ → Run Keyboard
set_keyboard_state k flags v_key =
    let vk_code = vk_of v_key in
    let made = set_key_state k.pressed_state vk_code >>= λ pressed.
    ok (record k { pressed_state = pressed }) in
    let broken = do
      released ← set_key_state k.released_state vk_code
      pressed ← clear_key_state k.pressed_state vk_code
      pressed' ← clear_key_state pressed vk_code
      ok (record k { pressed_state = pressed'; released_state = released })
    in if flags == ri_key_make then made else if flags == ri_key_break then broken else ok k

-- The keyboard's part of `BeginFrame`.
unfoldable pub begin_keyboard_frame : Keyboard → Keyboard
begin_keyboard_frame k = record {
  pressed_state = k.pressed_state;
  pressed_state_last = k.pressed_state;
  released_state = no_keys;
  released_state_last = k.released_state;
  aheld_state = key_or k.aheld_state (key_and k.pressed_state (key_not k.released_state));
  pressed_keys = key_and k.pressed_state (key_not k.pressed_state_last);
  held_keys = key_or k.pressed_state (key_and k.pressed_state_last (key_not k.released_state_last));
  released_keys = k.released_state;
}

-- For a key code of 8 bits: `IsKeyPressed`, `IsKeyHeld` and `IsKeyUp` of the frame's state.
abbrev pub is_key_pressed : Keyboard → ℕ → Run Bool
is_key_pressed k vk_code = get_key_state k.pressed_keys vk_code

abbrev pub is_key_held : Keyboard → ℕ → Run Bool
is_key_held k vk_code = get_key_state k.held_keys vk_code

abbrev pub is_key_up : Keyboard → ℕ → Run Bool
is_key_up k vk_code = get_key_state k.released_keys vk_code

-- What reaches the keyboard: raw input, and the begin of a frame.
pub data Event : Type 0 where
  key : ℕ → ℕ → Event
  frame : Event

unfoldable pub handle : Keyboard → Event → Run Keyboard
handle k (key flags v_key) = set_keyboard_state k flags v_key
handle k frame = ok (begin_keyboard_frame k)

unfoldable pub run : Keyboard → List Event → Run Keyboard
run k [] = ok k
run k (e ∷ es) = handle k e >>= λ k'. run k' es
