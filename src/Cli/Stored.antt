-- ===== src/Cli/Stored.antt =====
-- app/src-tauri/src/cli.rs with app/src-tauri/src/config.rs: a setting that is set is the one that is read later.
use secure_desk.Base.{
  ℕ, ◌≡◌, refl, sym, ap, ◌∙◌, subst, true, false, Option, none, some, List, [], ◌∷◌, arith,
  Bool-cases, inl, inr,
}
use secure_desk.Base.Outcome.{ok}
use secure_desk.Base.Text.{text_eq, text_eq_sound, ascii, decimal}
use secure_desk.Config
use secure_desk.Config.{
  ConnectionConfig, AppSettings, SettingValue, bool, text, number, with_setting, update_setting,
  save, IsRead, default_config,
}
use secure_desk.Cli.{get_value, set_value}
use secure_desk.Cli.Format.{bool_text}
use secure_desk.Cli.Settings.{shown, setting_value, is_bool_key}
use secure_desk.Cli.Handle.{Machine, Env, handle_config, or_default}

-- The settings that the command line knows
data Name : Type 0 where
  p2p_enabled : Name
  require_approval : Name
  lock_on_disconnect : Name
  session_timeout : Name
  start_with_windows : Name
  minimize_to_tray : Name
  show_notifications : Name
  connection_quality : Name

abbrev name_text : Name → List ℕ
name_text p2p_enabled = ascii "p2p_enabled"
name_text require_approval = ascii "require_approval"
name_text lock_on_disconnect = ascii "lock_on_disconnect"
name_text session_timeout = ascii "session_timeout"
name_text start_with_windows = ascii "start_with_windows"
name_text minimize_to_tray = ascii "minimize_to_tray"
name_text show_notifications = ascii "show_notifications"
name_text connection_quality = ascii "connection_quality"

-- How a value is printed
abbrev pub value_text : SettingValue → List ℕ
value_text (bool b) = bool_text b
value_text (text bytes) = bytes
value_text (number n) = decimal n

name_or :
    (key : List ℕ) (n : Name)
    → (text_eq key (name_text n) ≡ false → (m : Name) × (key ≡ name_text m))
    → (m : Name) × (key ≡ name_text m)
name_or key n rest = elim (Bool-cases (text_eq key (name_text n))) [
  | inl same ↦ (n, text_eq_sound key (name_text n) same)
  | inr other ↦ rest other
]

-- A key with a value is one of the known names.
Name-setting_value :
    (key value : List ℕ) (v : SettingValue)
    → setting_value key value ≡ some v
    → (n : Name) × (key ≡ name_text n)
unfolding setting_value is_bool_key
Name-setting_value key value v e = name_or key p2p_enabled λ h0. name_or key require_approval λ h1.
    name_or key lock_on_disconnect λ h2. name_or key session_timeout λ h3.
      name_or key start_with_windows λ h4. name_or key minimize_to_tray λ h5.
        name_or key show_notifications
          λ h6. name_or key connection_quality λ h7. absurd (ground arith)

-- The printed value of a setting that was just set
shown-with_setting :
    (n : Name) (value : List ℕ) (v : SettingValue) (c : ConnectionConfig)
    → setting_value (name_text n) value ≡ some v
    → shown (name_text n) (with_setting (name_text n) v c).settings ≡ some (value_text v)
unfolding shown with_setting setting_value
shown-with_setting p2p_enabled value v c e = ground arith
shown-with_setting require_approval value v c e = ground arith
shown-with_setting lock_on_disconnect value v c e = ground arith
shown-with_setting session_timeout value v c e = ground arith
shown-with_setting start_with_windows value v c e = ground arith
shown-with_setting minimize_to_tray value v c e = ground arith
shown-with_setting show_notifications value v c e = ground arith
shown-with_setting connection_quality value v c e = ground arith

shown-with_setting_other :
    (n : Name) (other : List ℕ) (v : SettingValue) (c : ConnectionConfig)
    → text_eq other (name_text n) ≡ false
    → shown other (with_setting (name_text n) v c).settings ≡ shown other c.settings
unfolding shown with_setting
shown-with_setting_other p2p_enabled other v c e = ground arith
shown-with_setting_other require_approval other v c e = ground arith
shown-with_setting_other lock_on_disconnect other v c e = ground arith
shown-with_setting_other session_timeout other v c e = ground arith
shown-with_setting_other start_with_windows other v c e = ground arith
shown-with_setting_other minimize_to_tray other v c e = ground arith
shown-with_setting_other show_notifications other v c e = ground arith
shown-with_setting_other connection_quality other v c e = ground arith

-- The same of a key
shown-set_value :
    (key value : List ℕ) (v : SettingValue) (c : ConnectionConfig)
    → setting_value key value ≡ some v
    → shown key (with_setting key v c).settings ≡ some (value_text v)
shown-set_value key value v c known =
    let (n, named) = Name-setting_value key value v known in
    subst
      (λ k.
        setting_value k value ≡ some v
        → shown k (with_setting k v c).settings ≡ some (value_text v))
      (sym named) (shown-with_setting n value v c) known

shown-set_value_other :
    (key value other : List ℕ) (v : SettingValue) (c : ConnectionConfig)
    → setting_value key value ≡ some v
    → text_eq other key ≡ false
    → shown other (with_setting key v c).settings ≡ shown other c.settings
shown-set_value_other key value other v c known apart =
    let (n, named) = Name-setting_value key value v known in
    subst
      (λ k.
        text_eq other k ≡ false
        → shown other (with_setting k v c).settings ≡ shown other c.settings)
      (sym named) (shown-with_setting_other n other v c) apart

-- The line that is printed, if there is one
abbrev line_of : Option (List ℕ) → List (List ℕ)
line_of none = []
line_of (some line) = line ∷ []

module _ (e : Env) where
  -- The machine once the configuration is stored
  abbrev stored : Machine → ConnectionConfig → Machine
  stored w c = record w {
    settings = record (Config.load_or_create e.serde w.settings).1 {
      file = some (e.serde.to_string_pretty c);
    };
  }

  load_or_create-writable :
      (s : Config.Store) → (Config.load_or_create e.serde s).1.writable ≡ s.writable
  unfolding Config.load_or_create save
  load_or_create-writable s = ground arith

  unreadable :
      (s : Config.Store) (bytes : List ℕ)
      → s.file ≡ some bytes
      → e.serde.from_str bytes ≡ none
      → or_default (Config.load_or_create e.serde s).0 ≡ default_config
  unfolding Config.load_or_create
  unreadable s bytes there bad = ground (arith, there, bad)

  load_or_create-stored :
      (w : Machine) (c : ConnectionConfig)
      → IsRead e.serde c
      → Config.load_or_create e.serde (stored w c).settings ≡ (ok c, (stored w c).settings)
  unfolding Config.load_or_create
  load_or_create-stored w c r = rw r refl

  handle_config-set_value :
      (key value : List ℕ) (v : SettingValue) (c : ConnectionConfig) (w : Machine)
      → setting_value key value ≡ some v
      → or_default (Config.load_or_create e.serde w.settings).0 ≡ c
      → w.settings.writable ≡ true
      → ((handle_config e (set_value key value) w).0 ≡ some 0)
        × ((handle_config e (set_value key value) w).2 ≡ stored w (with_setting key v c))
  unfolding handle_config update_setting save
  handle_config-set_value key value v c w known loaded can =
      let written = load_or_create-writable w.settings ∙ can in
      (rw (known, loaded, written) refl, rw (known, loaded, written) refl)

  handle_config-get_value :
      (key : List ℕ) (c : ConnectionConfig) (w : Machine)
      → (Config.load_or_create e.serde w.settings).0 ≡ ok c
      → (handle_config e (get_value key) w).1 ≡ line_of (shown key c.settings)
  unfolding handle_config
  handle_config-get_value key c w loaded = rw loaded (ground arith)

  -- Where the configuration can be read, or made, and written, and is read as it was written: setting a known setting
  -- to a value of its type ends with code 0; reading it then prints that value, and reading another one prints
  -- what it printed before.
  pub handle_config-get-set :
      (key value other : List ℕ) (v : SettingValue) (c : ConnectionConfig) (w : Machine)
      → setting_value key value ≡ some v
      → (Config.load_or_create e.serde w.settings).0 ≡ ok c
      → w.settings.writable ≡ true
      → IsRead e.serde (with_setting key v c)
      → text_eq other key ≡ false
      → let set = handle_config e (set_value key value) w in
        (set.0 ≡ some 0)
        × ((handle_config e (get_value key) set.2).1 ≡ value_text v ∷ [])
        × ((handle_config e (get_value other) set.2).1 ≡ (handle_config e (get_value other) w).1)
  handle_config-get-set key value other v c w known loaded can reads apart =
      let (code, after) =
        handle_config-set_value key value v c w known (ap or_default loaded) can in
      let again : (Config.load_or_create e.serde (stored w (with_setting key v c)).settings).0
          ≡ ok (with_setting key v c) =
        ap (λ p. p.0) (load_or_create-stored w (with_setting key v c) reads) in
      (
        code,
        ap (λ m. (handle_config e (get_value key) m).1) after
            ∙ (handle_config-get_value key (with_setting key v c) (stored w (with_setting key v c))
                  again
                ∙ ap line_of (shown-set_value key value v c known)),
        ap (λ m. (handle_config e (get_value other) m).1) after
            ∙ (handle_config-get_value other (with_setting key v c)
                  (stored w (with_setting key v c)) again
                ∙ (ap line_of (shown-set_value_other key value other v c known apart)
                    ∙ sym (handle_config-get_value other c w loaded))),
      )

  -- Where the file of the configuration is there and cannot be read as one, and can be written, a setting that is set
  -- ends with code 0 and replaces the file by the default configuration with that setting: whatever trusted devices
  -- and settings it held are lost.
  pub handle_config-unreadable :
      (key value bytes : List ℕ) (v : SettingValue) (w : Machine)
      → setting_value key value ≡ some v
      → w.settings.file ≡ some bytes
      → e.serde.from_str bytes ≡ none
      → w.settings.writable ≡ true
      → let set = handle_config e (set_value key value) w in
        (set.0 ≡ some 0)
        × (set.2.settings.file
            ≡ some (e.serde.to_string_pretty (with_setting key v default_config)))
  handle_config-unreadable key value bytes v w known there bad can =
      let (code, after) =
        handle_config-set_value key value v default_config w known
          (unreadable w.settings bytes there bad) can in
      (code, ap (λ m. m.settings.file) after)
