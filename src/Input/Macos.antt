-- ===== src/Input/Macos.antt =====
-- app/src-tauri/src/input.rs, on macOS. An event is one that is posted; the parameter `creates` says which events the
-- system makes, and one that it does not make is passed over.
use secure_desk.Base.{ℕ, Bool, true, false, Option, none, some, [], ◌∷◌, ◌==◌, if◌then◌else◌}
use secure_desk.Input.Common.{LockStates, InputInjector, Posted, Platform, is_tiny, at_last}
use secure_desk.Input.Keys.{windows_vk_to_mac}

pub data CgEventType : Type 0 where
  mouse_moved left_mouse_down left_mouse_up other_mouse_down other_mouse_up : CgEventType
  right_mouse_down right_mouse_up : CgEventType

pub data CgMouseButton : Type 0 where
  left center right : CgMouseButton

-- A key event has the text that is set in it, if there is one.
pub data CgEvent : Type 0 where
  mouse : CgEventType → ℕ → ℕ → CgMouseButton → CgEvent
  scroll : ℕ → ℕ → CgEvent
  keyboard : ℕ → Bool → Option ℕ → CgEvent

abbrev pub get_lock_states : LockStates
get_lock_states = record { caps_lock = false; num_lock = false; scroll_lock = false }

unfoldable pub button_event : ℕ → Bool → Option (CgEventType × CgMouseButton)
button_event n pressed =
    if n == 0
    then some (if pressed then (left_mouse_down, left) else (left_mouse_up, left))
    else if n == 1
    then some (if pressed then (other_mouse_down, center) else (other_mouse_up, center))
    else if n == 2
    then some (if pressed then (right_mouse_down, right) else (right_mouse_up, right))
    else none

module _ (creates : CgEvent → Bool) where
  abbrev pub post : CgEvent → InputInjector → Posted CgEvent
  post e i = some (if creates e then e ∷ [] else [], i)

  unfoldable pub move_mouse : ℕ → ℕ → InputInjector → Posted CgEvent
  move_mouse x y i =
      if is_tiny x y i then some ([], i) else post (mouse mouse_moved x y left) (at_last x y i)

  unfoldable pub mouse_button : ℕ → Bool → ℕ → ℕ → InputInjector → Posted CgEvent
  mouse_button n pressed x y i = elim (button_event n pressed) [
    | none ↦ some ([], at_last x y i)
    | some (event_type, b) ↦ post (mouse event_type x y b) (at_last x y i)
  ]

  unfoldable pub mouse_scroll : ℕ → ℕ → InputInjector → Posted CgEvent
  mouse_scroll dx dy i = post (scroll dy dx) i

  unfoldable pub key_event : ℕ → Bool → InputInjector → Posted CgEvent
  key_event key_code pressed i = post (keyboard (windows_vk_to_mac key_code) pressed none) i

  unfoldable pub key_event_scancode : ℕ → Bool → InputInjector → Posted CgEvent
  key_event_scancode scan_code pressed i = post (keyboard scan_code pressed none) i

  unfoldable pub type_char : ℕ → InputInjector → Posted CgEvent
  type_char c i = post (keyboard 0 true (some c)) i

  abbrev pub macos : Platform CgEvent
  macos = record {
    moves = move_mouse;
    clicks = mouse_button;
    scrolls = mouse_scroll;
    types = key_event;
  }
