-- ===== src/Input/Windows.antt =====
-- app/src-tauri/src/input.rs, on Windows. A call of SendInput is its list of inputs; the parameter `wheel_delta` is
-- WHEEL_DELTA. A flag of an input is a value of `Flag`, and a set of them is a list.
use secure_desk.Base.{
  ℕ, ◌%◌, ◌^◌, Bool, Option, none, some, List, [], ◌∷◌, ◌++◌, ◌==◌, if◌then◌else◌,
}
use secure_desk.Base.Int32.{mul32, div32}
use secure_desk.Input.Common.{
  LockStates, InputInjector, Posted, Platform, is_tiny, at_last, differs,
}

pub data Flag : Type 0 where
  left_down left_up middle_down middle_up right_down right_up x_down x_up : Flag
  move absolute wheel hwheel key_up scancode extended_key unicode : Flag

pub data WindowsInput : Type 0 where
  mouse : ℕ → ℕ → ℕ → List Flag → WindowsInput
  keyboard : ℕ → ℕ → List Flag → WindowsInput

abbrev pub vk_capital : ℕ
vk_capital = 0x14

abbrev pub vk_numlock : ℕ
vk_numlock = 0x90

abbrev pub vk_scroll : ℕ
vk_scroll = 0x91

unfoldable pub norm : ℕ → ℕ → Option ℕ
norm v size = div32 (mul32 v 65535) size

-- The input at a position, or a panic where the size of the screen is 0
abbrev pub mouse_at : ℕ → ℕ → ℕ → List Flag → InputInjector → Posted WindowsInput
mouse_at x y mouse_data flags i = elim (norm x i.screen_width) [
  | none ↦ none
  | some norm_x ↦ elim (norm y i.screen_height) [
    | none ↦ none
    | some norm_y ↦ some (mouse norm_x norm_y mouse_data flags ∷ [], i)
  ]
]

unfoldable pub move_mouse : ℕ → ℕ → InputInjector → Posted WindowsInput
move_mouse x y i =
    if is_tiny x y i then some ([], i) else mouse_at x y 0 (move ∷ absolute ∷ []) (at_last x y i)

unfoldable pub button_flag : ℕ → Bool → Option Flag
button_flag n pressed =
    if n == 0
    then some (if pressed then left_down else left_up)
    else if n == 1
    then some (if pressed then middle_down else middle_up)
    else if n == 2
    then some (if pressed then right_down else right_up)
    else if n == 3
    then some (if pressed then x_down else x_up)
    else if n == 4
    then some (if pressed then x_down else x_up)
    else none

-- XBUTTON1 and XBUTTON2
unfoldable pub mouse_data_of : ℕ → ℕ
mouse_data_of n = if n == 3 then 1 else if n == 4 then 2 else 0

-- The division comes before the match on the button.
unfoldable pub mouse_button : ℕ → Bool → ℕ → ℕ → InputInjector → Posted WindowsInput
mouse_button n pressed x y i = elim (button_flag n pressed) [
  | some flag ↦ mouse_at x y (mouse_data_of n) (flag ∷ move ∷ absolute ∷ []) (at_last x y i)
  | none ↦ elim (mouse_at x y 0 [] (at_last x y i)) [
    | none ↦ none
    | some posted ↦ some ([], at_last x y i)
  ]
]

unfoldable pub key_event : ℕ → Bool → InputInjector → Posted WindowsInput
key_event key_code pressed i =
    some (keyboard key_code 0 (if pressed then [] else key_up ∷ []) ∷ [], i)

unfoldable pub key_event_scancode : ℕ → Bool → Bool → InputInjector → Posted WindowsInput
key_event_scancode scan_code pressed extended i = some (
  keyboard 0 scan_code (
        scancode
        ∷ ((if pressed then [] else key_up ∷ []) ++ (if extended then extended_key ∷ [] else [])))
      ∷ [],
  i,
)

-- `c as u16`
unfoldable pub type_char : ℕ → InputInjector → Posted WindowsInput
type_char c i = some (
  keyboard 0 (c % 2 ^ 16) (unicode ∷ []) ∷ keyboard 0 (c % 2 ^ 16) (unicode ∷ key_up ∷ []) ∷ [],
  i,
)

-- The virtual keys that are pressed and released; `local` is what GetKeyState answers.
abbrev pub toggle_lock_key : ℕ → List WindowsInput
toggle_lock_key vk = keyboard vk 0 [] ∷ keyboard vk 0 (key_up ∷ []) ∷ []

unfoldable pub sync_lock_states : LockStates → LockStates → List WindowsInput
sync_lock_states local remote =
    (if differs local.caps_lock remote.caps_lock then toggle_lock_key vk_capital else [])
    ++ ((if differs local.num_lock remote.num_lock then toggle_lock_key vk_numlock else [])
        ++ (if differs local.scroll_lock remote.scroll_lock then toggle_lock_key vk_scroll else []))

module _ (wheel_delta : ℕ) where
  unfoldable pub mouse_scroll : ℕ → ℕ → InputInjector → Posted WindowsInput
  mouse_scroll dx dy i = some (
    (if dy == 0 then [] else mouse 0 0 (mul32 dy wheel_delta) (wheel ∷ []) ∷ [])
        ++ (if dx == 0 then [] else mouse 0 0 (mul32 dx wheel_delta) (hwheel ∷ []) ∷ []),
    i,
  )

  abbrev pub windows : Platform WindowsInput
  windows = record {
    moves = move_mouse;
    clicks = mouse_button;
    scrolls = mouse_scroll;
    types = key_event;
  }
