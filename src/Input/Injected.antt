-- ===== src/Input/Injected.antt =====
-- app/src-tauri/src/input.rs: which calls of the injectors panic.
use secure_desk.Base.{ℕ, ◌≢◌, arith}
use secure_desk.Host.{InputEvent, move_mouse, mouse_button, mouse_scroll, key_event, crashed}
use secure_desk.Input.Common.{InputInjector, injection}
use secure_desk.Input.X11 as X11
use secure_desk.Input.X11.{x11}

-- No call of the injector of X11 panics, in a build where arithmetic wraps.
pub injection-x11 :
    (keysym_to_keycode : ℕ → ℕ) (i : InputInjector) (e : InputEvent)
    → injection (x11 keysym_to_keycode) i e ≢ crashed
unfolding injection X11.move_mouse X11.mouse_button X11.mouse_scroll X11.key_event
injection-x11 k i (move_mouse x y) = ground arith
injection-x11 k i (mouse_button button pressed x y) = ground arith
injection-x11 k i (mouse_scroll dx dy) = ground arith
injection-x11 k i (key_event key pressed) = ground arith
