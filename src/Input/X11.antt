-- ===== src/Input/X11.antt =====
-- app/src-tauri/src/input.rs, on Linux. The calls of Xlib and XTest are events; the parameter `keysym_to_keycode` is
-- XKeysymToKeycode, which gives 0 for a keysym without a key.
use secure_desk.Base.{
  ℕ, zero, suc, ◌+◌, ◌%◌, ◌^◌, Bool, true, false, Option, none, some, List, [], ◌∷◌, ◌++◌, ◌==◌,
  if◌then◌else◌,
}
use secure_desk.Base.Int32.{is_negative, abs32}
use secure_desk.Input.Common.{
  LockStates, InputInjector, Posted, Platform, is_tiny, at_last, differs,
}
use secure_desk.Input.Keys.{windows_vk_to_x11_keysym}

pub data XEvent : Type 0 where
  motion : ℕ → ℕ → XEvent
  button : ℕ → Bool → XEvent
  key : ℕ → Bool → XEvent
  flush : XEvent

unfoldable pub move_mouse : ℕ → ℕ → InputInjector → Posted XEvent
move_mouse x y i =
    if is_tiny x y i then some ([], i) else some (motion x y ∷ flush ∷ [], at_last x y i)

unfoldable pub x_button : ℕ → Option ℕ
x_button n =
    if n == 0
    then some 1
    else if n == 1
    then some 2
    else if n == 2
    then some 3
    else if n == 3
    then some 8
    else if n == 4
    then some 9
    else none

unfoldable pub mouse_button : ℕ → Bool → ℕ → ℕ → InputInjector → Posted XEvent
mouse_button n pressed x y i = elim (x_button n) [
  | none ↦ some (motion x y ∷ [], at_last x y i)
  | some b ↦ some (motion x y ∷ button b pressed ∷ flush ∷ [], at_last x y i)
]

-- `for _ in 0..count`
abbrev pub clicks : ℕ → ℕ → List XEvent
clicks zero b = []
clicks (suc count) b = button b true ∷ button b false ∷ clicks count b

-- The rounds of `0..count` for an `i32`
abbrev pub rounds : ℕ → ℕ
rounds count = if is_negative count then 0 else count

unfoldable pub mouse_scroll : ℕ → ℕ → InputInjector → Posted XEvent
mouse_scroll dx dy i =
    let vertical = clicks (rounds (abs32 dy)) (if is_negative dy then 5 else 4) in
    let horizontal = clicks (rounds (abs32 dx)) (if is_negative dx then 6 else 7) in
    some (
      (if dy == 0 then [] else vertical) ++ ((if dx == 0 then [] else horizontal) ++ (flush ∷ [])),
      i,
    )

unfoldable pub key_event_scancode : ℕ → Bool → InputInjector → Posted XEvent
key_event_scancode scan_code pressed i =
    some (key ((scan_code + 8) % 2 ^ 32) pressed ∷ flush ∷ [], i)

-- `led_mask`, of which the lowest three bits are read
unfoldable pub get_lock_states : Bool → Bool → Bool → LockStates
get_lock_states bit0 bit1 bit2 = record { caps_lock = bit0; num_lock = bit1; scroll_lock = bit2 }

module _ (keysym_to_keycode : ℕ → ℕ) where
  unfoldable pub key_event : ℕ → Bool → InputInjector → Posted XEvent
  key_event key_code pressed i =
      let keycode = keysym_to_keycode (windows_vk_to_x11_keysym key_code) in
      if keycode == 0 then some ([], i) else some (key keycode pressed ∷ flush ∷ [], i)

  -- A press and a release of the key of a keysym
  abbrev pub stroke : ℕ → List XEvent
  stroke keysym =
      let keycode = keysym_to_keycode keysym in
      if keycode == 0 then [] else key keycode true ∷ key keycode false ∷ flush ∷ []

  unfoldable pub type_char : ℕ → InputInjector → Posted XEvent
  type_char c i = some (stroke c, i)

  abbrev pub toggle_lock_key : ℕ → List XEvent
  toggle_lock_key keysym = stroke keysym

  unfoldable pub sync_lock_states : LockStates → LockStates → List XEvent
  sync_lock_states local remote =
      (if differs local.caps_lock remote.caps_lock then toggle_lock_key 0xffe5 else [])
      ++ ((if differs local.num_lock remote.num_lock then toggle_lock_key 0xff7f else [])
          ++ (if differs local.scroll_lock remote.scroll_lock then toggle_lock_key 0xff14 else []))

  abbrev pub x11 : Platform XEvent
  x11 = record {
    moves = move_mouse;
    clicks = mouse_button;
    scrolls = mouse_scroll;
    types = key_event;
  }
