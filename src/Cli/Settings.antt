-- ===== src/Cli/Settings.antt =====
-- app/src-tauri/src/cli.rs: reading and setting one of the settings.
use secure_desk.Base.{ℕ, Bool, ◌||◌, Option, none, some, List, if◌then◌else◌}
use secure_desk.Base.Text.{text_eq, ascii, decimal}
use secure_desk.Config.{AppSettings, SettingValue, bool, text, number}
use secure_desk.Cli.Format.{bool_value, parse_u32, bool_text}

-- The match of `config get`
unfoldable pub shown : List ℕ → AppSettings → Option (List ℕ)
shown key s =
    if text_eq key (ascii "p2p_enabled")
    then some (bool_text s.p2p_enabled)
    else if text_eq key (ascii "require_approval")
    then some (bool_text s.require_approval)
    else if text_eq key (ascii "lock_on_disconnect")
    then some (bool_text s.lock_on_disconnect)
    else if text_eq key (ascii "session_timeout")
    then some (decimal s.session_timeout)
    else if text_eq key (ascii "start_with_windows")
    then some (bool_text s.start_with_windows)
    else if text_eq key (ascii "minimize_to_tray")
    then some (bool_text s.minimize_to_tray)
    else if text_eq key (ascii "show_notifications")
    then some (bool_text s.show_notifications)
    else if text_eq key (ascii "connection_quality")
    then some s.connection_quality
    else none

unfoldable pub is_bool_key : List ℕ → Bool
is_bool_key key =
    text_eq key (ascii "p2p_enabled")
    || text_eq key (ascii "require_approval")
    || text_eq key (ascii "lock_on_disconnect")
    || text_eq key (ascii "start_with_windows")
    || text_eq key (ascii "minimize_to_tray")
    || text_eq key (ascii "show_notifications")

-- The match of `config set`; `none` is an exit with code 1.
unfoldable pub setting_value : List ℕ → List ℕ → Option SettingValue
unfolding is_bool_key bool_value parse_u32
setting_value key value =
    if is_bool_key key
    then elim (bool_value value) [ none ↦ none | some b ↦ some (bool b) ]
    else if text_eq key (ascii "session_timeout")
    then elim (parse_u32 value) [ none ↦ none | some n ↦ some (number n) ]
    else if text_eq key (ascii "connection_quality")
    then some (text value)
    else none
