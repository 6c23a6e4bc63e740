-- ===== src/Privacy/Windows/Tests.antt =====
-- Runs of app/src-tauri/src/privacy.rs on Windows, and its theorems.
use secure_desk.Base.{length, ◌≤◌, arith, ◌≡◌, refl, true, false, none, some, List, [], ◌∷◌}
use secure_desk.Privacy.Windows.{System, Answers, new_privacy, disable_all, kb_hook, key_down}
use secure_desk.Privacy.Windows.Held.{
  Call, black_on, block, black_off, message, perform_all, flags_after_all, flags,
}
use secure_desk.Privacy.Windows.Released.{perform_all-released}

abbrev answers : Answers
answers = record { has_module = true; new_window = some 7; new_hook = some 9 }

abbrev no_answer : Answers
no_answer = record { has_module = true; new_window = none; new_hook = none }

abbrev untouched : System
untouched = record { windows = []; hooks = []; blocked = false }

-- The overlay is made and cannot be destroyed when the black screen is turned off, which is turned on again; the new
-- overlay is closed by its user, and the hook is refused.
abbrev calls : List Call
calls =
    black_on answers
    ∷ black_off false
    ∷ black_on (record answers { new_window = some 8 })
    ∷ message true 8 (key_down 0x1B) true true
    ∷ block no_answer
    ∷ []

-- While the input is blocked a key is kept back, but for Ctrl, Shift and Escape.
keys :
    (kb_hook 0 (some 65) false false (record untouched { blocked = true }) ≡ false)
    × (kb_hook 0 (some 0x1B) true true (record untouched { blocked = true }) ≡ true)
    × (kb_hook 0 (some 65) false false untouched ≡ true)
unfolding kb_hook
keys = (refl, refl, refl)

perform_all-released_example :
    let (p', s') = perform_all calls (new_privacy, untouched) in
    let left = (disable_all true true p' s').1 in
    (flags p' ≡ flags_after_all calls (flags new_privacy))
    × (length left.windows ≤ 1)
    × (length left.hooks ≤ 0)
    × (left.blocked ≡ false)
unfolding new_privacy
perform_all-released_example =
    perform_all-released 0 0 calls new_privacy untouched
      (record { window_held = omega arith; hook_held = omega arith; block_held = refl })
