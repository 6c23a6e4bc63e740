-- ===== src/Input/Tests.antt =====
-- Runs of app/src-tauri/src/input.rs, and its theorems.
use secure_desk.Base.{
  ℕ, ◌-◌, ◌≡◌, ◌⊎◌, inl, refl, Bool, true, false, not, none, some, List, [], ◌∷◌, ◌++◌, ◌==◌,
  if◌then◌else◌, arith,
}
use secure_desk.Host.{InputEvent}
use secure_desk.Input.Common.{LockStates, InputInjector, perform_all}
use secure_desk.Input.Keys.{find_key, mac_keys, windows_vk_to_mac}
use secure_desk.Input.Keys.Injective.{windows_vk_to_mac_shared, windows_vk_to_x11_keysym_injective}
use secure_desk.Input.X11.{XEvent, x11}
use secure_desk.Input.Pointer.{Screen, pointer, aim, IsNear, last_of, pointer-perform_all}
use secure_desk.Input.Windows
use secure_desk.Input.Windows.{WindowsInput, keyboard, mouse, norm, sync_lock_states}
use secure_desk.Input.Locks.{Keyboard}

-- On macOS the keys Insert, which has no arm, and N share a code.
insert_is_n : windows_vk_to_mac 0x2d ≡ windows_vk_to_mac 0x4e
unfolding windows_vk_to_mac
insert_is_n = refl

-- On Windows a character beyond 16 bits is typed as another.
type_char_truncated : (i : InputInjector) → Windows.type_char 0x1f600 i ≡ Windows.type_char 0xf600 i
unfolding Windows.type_char
type_char_truncated i = refl

-- The scaled coordinate wraps on a screen of more than 32769 pixels.
norm_wraps : norm 32769 50000 ≡ some (4294967296 - 42949)
unfolding norm
norm_wraps = refl

abbrev injector : InputInjector
injector = record { screen_width = 1920; screen_height = 1080; last_mouse_x = 0; last_mouse_y = 0 }

abbrev events : List InputEvent
events =
    InputEvent.move_mouse 100 50 ∷ InputEvent.key_event 0x41 true ∷ InputEvent.mouse_scroll 0 2 ∷ []

windows_vk_to_mac_shared_example :
    (◌≡◌ {A = ℕ} 0x2d 0x4e) ⊎ ((find_key 0x2d mac_keys ≡ none) ⊎ (find_key 0x4e mac_keys ≡ none))
windows_vk_to_mac_shared_example = windows_vk_to_mac_shared 0x2d 0x4e insert_is_n

windows_vk_to_x11_keysym_injective_example : ◌≡◌ {A = ℕ} 0x41 0x41
windows_vk_to_x11_keysym_injective_example =
    windows_vk_to_x11_keysym_injective 0x41 0x41 (inl refl) (inl refl) refl

abbrev display : Screen
display = record { width = 1920; height = 1080; narrow = omega arith; low = omega arith }

pointer-perform_all_example :
    (posted : List XEvent) × (i' : InputInjector) × (perform_all
        (x11 (λ keysym. 38))
        (events ++ (InputEvent.move_mouse 101 50 ∷ []))
        injector
      ≡ some (posted, i'))
    × IsNear (101, 50) (pointer display posted (last_of injector))
unfolding aim
pointer-perform_all_example =
    pointer-perform_all display (λ keysym. 38) events (InputEvent.move_mouse 101 50) injector 101 50
      (omega arith) (omega arith) (omega arith) refl

-- A keyboard that is which keys are toggled; a press toggles its key.
abbrev pressed : WindowsInput → (ℕ → Bool) → ℕ → Bool
pressed (keyboard vk scan []) s k = if k == vk then not (s k) else s k
pressed (keyboard vk scan (f ∷ fs)) s k = s k
pressed (mouse x y d fs) s k = s k

abbrev toy : Keyboard (ℕ → Bool)
toy = record { toggled = λ vk s. s vk; send = pressed }

abbrev remote : LockStates
remote = record { caps_lock = false; num_lock = true; scroll_lock = true }
