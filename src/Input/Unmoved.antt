-- ===== src/Input/Unmoved.antt =====
-- app/src-tauri/src/input.rs, on Windows and macOS: a button that the injector does not know.
use secure_desk.Base.{ℕ, ◌^◌, ◌≤◌, ◌<◌, ◌≡◌, Bool, true, some, [], arith, if-true}
use secure_desk.Input.Common.{InputInjector, at_last, is_tiny}
use secure_desk.Input.Scaling.{norm_lem}
use secure_desk.Input.Windows
use secure_desk.Input.Windows.{norm}
use secure_desk.Input.Macos
use secure_desk.Input.Macos.{CgEvent}

is_tiny-at_last : (x y : ℕ) (i : InputInjector) → is_tiny x y (at_last x y i) ≡ true
is_tiny-at_last x y i = ground arith

-- The position of the button is remembered and the pointer does not move; a movement to that position is then passed
-- over, on Windows with a screen and a position on it.
mouse_button_unmoved :
    (n : ℕ) (pressed : Bool) (x y : ℕ) (i : InputInjector)
    → 4 < n
    → x ≤ 32768
    → y ≤ 32768
    → 0 < i.screen_width
    → i.screen_width < 2 ^ 31
    → 0 < i.screen_height
    → i.screen_height < 2 ^ 31
    → (Windows.mouse_button n pressed x y i ≡ some ([], at_last x y i))
      × (Windows.move_mouse x y (at_last x y i) ≡ some ([], at_last x y i))
unfolding Windows.mouse_button Windows.move_mouse Windows.button_flag
mouse_button_unmoved n pressed x y i h hx hy w w' v v' = (
  ground (arith, norm_lem x i.screen_width hx w w', norm_lem y i.screen_height hy v v'),
  if-true _ _ _ (is_tiny-at_last x y i),
)

mouse_button_unmoved_macos :
    (creates : CgEvent → Bool) (n : ℕ) (pressed : Bool) (x y : ℕ) (i : InputInjector)
    → 2 < n
    → (Macos.mouse_button creates n pressed x y i ≡ some ([], at_last x y i))
      × (Macos.move_mouse creates x y (at_last x y i) ≡ some ([], at_last x y i))
unfolding Macos.mouse_button Macos.move_mouse Macos.button_event
mouse_button_unmoved_macos creates n pressed x y i h =
    (ground arith, if-true _ _ _ (is_tiny-at_last x y i))
