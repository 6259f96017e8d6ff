-- ===== src/RawInput/Mouse.antt =====
-- The mouse of hid_rawinput.h and hid_rawinput.cpp. The screen's metrics, the scaling by floating
-- point and the cursor are the system's: parameters.
use Prim.Native.Nat.{bit_and, bit_or}
use dd_framework.Base.{
  ℕ, suc, ◌+◌, ◌-◌, ◌*◌, ◌/◌, ◌^◌, Bool, not, List, [], ◌∷◌, ltb, leb, ◌==◌, if◌then◌else◌, Signed,
  pos, negsuc, Run, ok, ◌>>=◌, ◌>>◌, require,
}

pub record MouseState : Type 0 where
  pub absolute_x : Signed
  pub absolute_y : Signed
  pub delta_x : Signed
  pub delta_y : Signed
  pub delta_vwheel : Signed
  pub delta_hwheel : Signed
  pub button_state : ℕ
  pub button_held : ℕ

abbrev pub no_mouse : MouseState
no_mouse = record {
  absolute_x = pos 0;
  absolute_y = pos 0;
  delta_x = pos 0;
  delta_y = pos 0;
  delta_vwheel = pos 0;
  delta_hwheel = pos 0;
  button_state = 0;
  button_held = 0;
}

-- The fields of `RAWMOUSE` that are read.
pub record RawMouse : Type 0 where
  pub flags : ℕ
  pub button_flags : ℕ
  pub button_data : ℕ
  pub last_x : Signed
  pub last_y : Signed

abbrev pub mouse_move_absolute : ℕ
mouse_move_absolute = 1

abbrev pub mouse_virtual_desktop : ℕ
mouse_virtual_desktop = 2

abbrev pub ri_mouse_wheel : ℕ
ri_mouse_wheel = 2 ^ 10

abbrev pub ri_mouse_hwheel : ℕ
ri_mouse_hwheel = 2 ^ 11

abbrev pub button_down_mask : ℕ
button_down_mask = 0x1 + 0x4 + 0x10 + 0x40 + 0x100

abbrev pub has_flag : ℕ → ℕ → Bool
has_flag flags flag = bit_and flags flag == flag

-- A difference of natural numbers.
abbrev pub difference : ℕ → ℕ → Signed
difference a b = if leb b a then pos (a - b) else negsuc (b - a - 1)

-- An `s32`, or else an overflow.
abbrev pub s32 : Signed → Run Signed
s32 (pos n) = do require (ltb n (2 ^ 31)); ok (pos n)
s32 (negsuc n) = do require (ltb n (2 ^ 31)); ok (negsuc n)

unfoldable pub add_s32 : Signed → Signed → Run Signed
add_s32 (pos a) (pos b) = s32 (pos (a + b))
add_s32 (pos a) (negsuc b) = s32 (difference a (suc b))
add_s32 (negsuc a) (pos b) = s32 (difference b (suc a))
add_s32 (negsuc a) (negsuc b) = s32 (negsuc (suc (a + b)))

unfoldable pub sub_s32 : Signed → Signed → Run Signed
sub_s32 (pos a) (pos b) = s32 (difference a b)
sub_s32 (pos a) (negsuc b) = s32 (pos (suc (a + b)))
sub_s32 (negsuc a) (pos b) = s32 (negsuc (a + b))
sub_s32 (negsuc a) (negsuc b) = s32 (difference b a)

pub record Mouse : Type 0 where
  pub last_raw : RawMouse
  pub interim : MouseState
  pub frame : MouseState

-- The system: the width and height of the virtual desktop or of the screen, and
-- `static_cast<s32>((value / 65535.0f) * size)`.
pub record System : Type 0 where
  pub width : Bool → Signed
  pub height : Bool → Signed
  pub scale : Signed → Signed → Signed

module _ (system : System) where
  unfoldable pub move_absolute : MouseState → RawMouse → RawMouse → Run MouseState
  move_absolute s last mouse = do
    let virtual_desktop = has_flag last.flags mouse_virtual_desktop
    step_x ← sub_s32 mouse.last_x last.last_x
    delta_x ← add_s32 s.delta_x step_x
    step_y ← sub_s32 mouse.last_y last.last_y
    delta_y ← add_s32 s.delta_y step_y
    ok (record s {
      absolute_x = system.scale mouse.last_x (system.width virtual_desktop);
      absolute_y = system.scale mouse.last_y (system.height virtual_desktop);
      delta_x = delta_x;
      delta_y = delta_y;
    })

  unfoldable pub move_relative : MouseState → RawMouse → Run MouseState
  move_relative s mouse = do
    delta_x ← add_s32 s.delta_x mouse.last_x
    delta_y ← add_s32 s.delta_y mouse.last_y
    ok (record s { delta_x = delta_x; delta_y = delta_y })

  -- The tests of the two wheels. The data is unsigned.
  unfoldable pub turn_wheels : MouseState → RawMouse → Run MouseState
  turn_wheels s mouse = do
    let turned = add_s32 s.delta_vwheel (pos mouse.button_data)
    vwheel ← if has_flag mouse.button_flags ri_mouse_wheel then turned else ok s.delta_vwheel
    let turned_h = add_s32 s.delta_hwheel (pos mouse.button_data)
    hwheel ← if has_flag mouse.button_flags ri_mouse_hwheel then turned_h else ok s.delta_hwheel
    ok (record s { delta_vwheel = vwheel; delta_hwheel = hwheel })

  -- `MOUSE_MOVE_RELATIVE` is 0, so the second test of the movement always holds.
  unfoldable pub set_mouse_state : Mouse → RawMouse → Run Mouse
  set_mouse_state m mouse = do
    let absolute = move_absolute m.interim m.last_raw mouse
    let relative = move_relative m.interim mouse
    moved ← if has_flag m.last_raw.flags mouse_move_absolute then absolute else relative
    turned ← turn_wheels moved mouse
    ok (record m {
      interim = record turned { button_held = bit_or turned.button_held mouse.button_flags };
      last_raw = mouse;
    })

-- The mouse's part of `BeginFrame`, with the cursor's position.
unfoldable pub begin_mouse_frame : Mouse → Signed → Signed → Mouse
begin_mouse_frame m cursor_x cursor_y =
    let down = bit_and m.interim.button_state button_down_mask in
    let up = bit_and (m.interim.button_state / 2) button_down_mask in
    let held_state = bit_and (bit_or m.frame.button_held down) (2 ^ 16 - 1 - up) in
    record m {
      frame = record m.interim {
        absolute_x = cursor_x;
        absolute_y = cursor_y;
        button_held = held_state;
      };
      interim = no_mouse;
    }

unfoldable pub get_button_down : MouseState → ℕ → Bool
get_button_down s mouse_button = not (bit_and s.button_state mouse_button == 0)

unfoldable pub get_button_held : MouseState → ℕ → Bool
get_button_held s mouse_button = not (bit_and s.button_held mouse_button == 0)

unfoldable pub get_button_up : MouseState → ℕ → Bool
get_button_up s mouse_button = not (bit_and s.button_state (mouse_button * 2) == 0)

-- What reaches the mouse.
pub data MouseEvent : Type 0 where
  moved : RawMouse → MouseEvent
  frame : Signed → Signed → MouseEvent

unfoldable pub run_mouse : System → Mouse → List MouseEvent → Run Mouse
run_mouse system m [] = ok m
run_mouse system m (moved raw ∷ es) = set_mouse_state system m raw >>= λ m'. run_mouse system m' es
run_mouse system m (frame x y ∷ es) = run_mouse system (begin_mouse_frame m x y) es
