-- ===== src/Privacy/Windows.antt =====
-- app/src-tauri/src/privacy.rs: the privacy mode of Windows. `System` is what the program holds of the system: the overlay
-- windows that are open, the keyboard hooks that are set, and INPUT_BLOCKED. What the calls that
-- make a window and a hook answer is `Answers`; whether those succeed that give one back is an argument of each call.
pub mod Held
pub mod Released
mod Tests
use secure_desk.Base.{
  ℕ, Bool, true, false, ◌&&◌, Option, none, some, List, [], ◌∷◌, if◌then◌else◌, ◌==◌,
}
use secure_desk.Base.Outcome.{Outcome, ok, err, panic}
use secure_desk.Base.Int32.{is_negative}

pub record PrivacyMode : Type 0 where
  pub black_screen : Bool
  pub input_blocked : Bool
  pub overlay_hwnd : Option ℕ
  pub hook : Option ℕ

pub record System : Type 0 where
  pub windows : List ℕ
  pub hooks : List ℕ
  pub blocked : Bool

-- The handle of the module, that of a new window if it is not 0, and that of a new hook
pub record Answers : Type 0 where
  pub has_module : Bool
  pub new_window : Option ℕ
  pub new_hook : Option ℕ

pub data PrivacyError : Type 0 where
  no_module no_window no_hook : PrivacyError

abbrev pub Guarded : Type 0
Guarded = Outcome PrivacyError (Unit {0}) × PrivacyMode × System

unfoldable pub new_privacy : PrivacyMode
new_privacy = record {
  black_screen = false;
  input_blocked = false;
  overlay_hwnd = none;
  hook = none;
}

-- A handle that was taken out of its field, as it is given back
unfoldable pub without_handle : ℕ → List ℕ → List ℕ
without_handle h [] = []
without_handle h (x ∷ xs) = let rest = without_handle h xs in if x == h then rest else x ∷ rest

-- DestroyWindow and UnhookWindowsHookEx on the handle, if there is one: `gives_back` says whether the call succeeds. Its
-- failure is passed over and the handle is forgotten.
abbrev pub given_back : Bool → Option ℕ → List ℕ → List ℕ
given_back gives_back none xs = xs
given_back false (some h) xs = xs
given_back true (some h) xs = without_handle h xs

unfoldable pub create_overlay : Answers → System → Outcome PrivacyError ℕ × System
create_overlay a s =
    if a.has_module
    then elim a.new_window [
      | none ↦ (err no_window, s)
      | some h ↦ (ok h, record s { windows = h ∷ s.windows })
    ]
    else (err no_module, s)

abbrev pub with_overlay : Outcome PrivacyError ℕ × System → PrivacyMode → Guarded
with_overlay (ok h, s) p = (ok tt, record p { overlay_hwnd = some h }, s)
with_overlay (err e, s) p = (err e, p, s)
with_overlay (panic, s) p = (panic, p, s)

unfoldable pub enable_black_screen : Answers → PrivacyMode → System → Guarded
unfolding create_overlay
enable_black_screen a p s =
    if p.black_screen
    then (ok tt, p, s)
    else with_overlay (create_overlay a s) (record p { black_screen = true })

unfoldable pub disable_black_screen : Bool → PrivacyMode → System → PrivacyMode × System
unfolding without_handle
disable_black_screen destroys p s =
    if p.black_screen
    then (
      record p { black_screen = false; overlay_hwnd = none },
      record s { windows = given_back destroys p.overlay_hwnd s.windows },
    )
    else (p, s)

abbrev pub with_hook : Answers → PrivacyMode → System → Guarded
with_hook a p s =
    if a.has_module
    then elim a.new_hook [
      | none ↦ (err no_hook, p, s)
      | some h ↦ (ok tt, record p { hook = some h }, record s { hooks = h ∷ s.hooks })
    ]
    else (err no_module, p, s)

unfoldable pub block_input : Answers → PrivacyMode → System → Guarded
block_input a p s =
    if p.input_blocked
    then (ok tt, p, s)
    else with_hook a (record p { input_blocked = true }) (record s { blocked = true })

unfoldable pub unblock_input : Bool → PrivacyMode → System → PrivacyMode × System
unfolding without_handle
unblock_input unhooks p s =
    if p.input_blocked
    then (
      record p { input_blocked = false; hook = none },
      record s { blocked = false; hooks = given_back unhooks p.hook s.hooks },
    )
    else (p, s)

unfoldable pub disable_all : Bool → Bool → PrivacyMode → System → PrivacyMode × System
unfolding disable_black_screen unblock_input
disable_all destroys unhooks p s =
    let (p', s') = disable_black_screen destroys p s in unblock_input unhooks p' s'

abbrev pub vk_escape : ℕ
vk_escape = 0x1B

pub data Message : Type 0 where
  paint close : Message
  key_down : ℕ → Message
  other : ℕ → Message

-- What the overlay's procedure does with a message, but for what it paints: whether the message goes on to the
-- system's own procedure, and the windows that are left. `ctrl` and `shift` are what GetAsyncKeyState says,
-- `destroys` is whether DestroyWindow succeeds.
unfoldable pub overlay_proc : Bool → ℕ → Message → Bool → Bool → System → Bool × System
unfolding without_handle
overlay_proc destroys hwnd paint ctrl shift s = (false, s)
overlay_proc destroys hwnd close ctrl shift s = (false, s)
overlay_proc destroys hwnd (key_down vk) ctrl shift s = (
  false,
  if ctrl && shift && (vk == vk_escape)
      then record s { windows = given_back destroys (some hwnd) s.windows }
      else s,
)
overlay_proc destroys hwnd (other message) ctrl shift s = (true, s)

-- Whether a key goes on to the next hook: `code` is an `i32`, `vk_code` the key, if the pointer to it is not null.
unfoldable pub kb_hook : ℕ → Option ℕ → Bool → Bool → System → Bool
kb_hook code vk_code ctrl shift s =
    if is_negative code
    then true
    else if s.blocked
    then elim vk_code [ none ↦ false | some vk ↦ ctrl && shift && (vk == vk_escape) ]
    else true
