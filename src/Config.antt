-- ===== src/Config.antt =====
-- app/src-tauri/src/config.rs: the settings and the trusted devices, and their file. serde_json is the parameter
-- `Text`; `now` is the time in seconds.
pub mod Trusted
pub mod Settings
mod Tests
use secure_desk.Base.{
  ℕ, ◌≡◌, Bool, true, false, Option, none, some, List, [], ◌∷◌, map, is_empty, if◌then◌else◌,
}
use secure_desk.Base.Assoc.{Assoc, find, remove, insert}
use secure_desk.Base.Outcome.{Outcome, ok, err, panic}
use secure_desk.Base.Text.{text_eq, ascii}
use secure_desk.Client.Connect.{without_spaces}

pub record TrustedDevice : Type 0 where
  pub device_id : List ℕ
  pub name : Option (List ℕ)
  pub trusted_at : ℕ
  pub last_connected : Option ℕ

pub record AppSettings : Type 0 where
  pub start_with_windows : Bool
  pub minimize_to_tray : Bool
  pub show_notifications : Bool
  pub p2p_enabled : Bool
  pub connection_quality : List ℕ
  pub require_approval : Bool
  pub lock_on_disconnect : Bool
  pub session_timeout : ℕ
  pub hide_from_address_book : Bool

abbrev pub default_settings : AppSettings
default_settings = record {
  start_with_windows = false;
  minimize_to_tray = true;
  show_notifications = true;
  p2p_enabled = true;
  connection_quality = ascii "auto";
  require_approval = true;
  lock_on_disconnect = false;
  session_timeout = 0;
  hide_from_address_book = false;
}

pub record ConnectionConfig : Type 0 where
  pub p2p_enabled : Bool
  pub trusted_devices : Assoc TrustedDevice
  pub settings : AppSettings
  pub alias : Option (List ℕ)

abbrev pub default_config : ConnectionConfig
default_config = record {
  p2p_enabled = true;
  trusted_devices = [];
  settings = default_settings;
  alias = none;
}

pub data SettingValue : Type 0 where
  bool : Bool → SettingValue
  text : List ℕ → SettingValue
  number : ℕ → SettingValue

pub record Text : Type 0 where
  pub to_string_pretty : ConnectionConfig → List ℕ
  pub from_str : List ℕ → Option ConnectionConfig

-- What was written for a configuration is read as it.
abbrev pub IsRead : Text → ConnectionConfig → Type 0
IsRead t c = t.from_str (t.to_string_pretty c) ≡ some c

pub data ConfigError : Type 0 where
  io bad_json : ConfigError

-- The file, if there is one, and whether it can be written; `left` is what a
-- write that fails leaves of it.
pub record Store : Type 0 where
  pub file : Option (List ℕ)
  pub writable : Bool
  pub left : Option (List ℕ)

abbrev pub Configured : Type 0
Configured = Outcome ConfigError (Unit {0}) × ConnectionConfig × Store

unfoldable pub is_trusted : List ℕ → ConnectionConfig → Bool
unfolding find without_spaces
is_trusted device_id c = elim (find (without_spaces device_id) c.trusted_devices) [
  | none ↦ false
  | some device ↦ true
]

unfoldable pub get_trusted_devices : ConnectionConfig → List TrustedDevice
get_trusted_devices c = map (λ p. p.1) c.trusted_devices

abbrev pub set_bool : SettingValue → (Bool → ConnectionConfig) → ConnectionConfig → ConnectionConfig
set_bool (bool v) set c = set v
set_bool (text v) set c = c
set_bool (number v) set c = c

abbrev pub set_text :
    SettingValue → (List ℕ → ConnectionConfig) → ConnectionConfig → ConnectionConfig
set_text (bool v) set c = c
set_text (text v) set c = set v
set_text (number v) set c = c

abbrev pub set_number : SettingValue → (ℕ → ConnectionConfig) → ConnectionConfig → ConnectionConfig
set_number (bool v) set c = c
set_number (text v) set c = c
set_number (number v) set c = set v

-- The match of `update_setting`; a value of another type than the setting's is passed over.
unfoldable pub with_setting : List ℕ → SettingValue → ConnectionConfig → ConnectionConfig
with_setting key value c =
    if text_eq key (ascii "start_with_windows")
    then set_bool value (λ v. record c { settings = record c.settings { start_with_windows = v } })
        c
    else if text_eq key (ascii "minimize_to_tray")
    then set_bool value (λ v. record c { settings = record c.settings { minimize_to_tray = v } }) c
    else if text_eq key (ascii "show_notifications")
    then set_bool value (λ v. record c { settings = record c.settings { show_notifications = v } })
        c
    else if text_eq key (ascii "p2p_enabled")
    then set_bool value
        (λ v. record c { p2p_enabled = v; settings = record c.settings { p2p_enabled = v } }) c
    else if text_eq key (ascii "connection_quality")
    then set_text value (λ v. record c { settings = record c.settings { connection_quality = v } })
        c
    else if text_eq key (ascii "require_approval")
    then set_bool value (λ v. record c { settings = record c.settings { require_approval = v } }) c
    else if text_eq key (ascii "lock_on_disconnect")
    then set_bool value (λ v. record c { settings = record c.settings { lock_on_disconnect = v } })
        c
    else if text_eq key (ascii "session_timeout")
    then set_number value (λ v. record c { settings = record c.settings { session_timeout = v } }) c
    else if text_eq key (ascii "hide_from_address_book")
    then set_bool value
        (λ v. record c { settings = record c.settings { hide_from_address_book = v } }) c
    else c

module _ (t : Text) where
  unfoldable pub save : ConnectionConfig → Store → Outcome ConfigError (Unit {0}) × Store
  save c s =
      if s.writable
      then (ok tt, record s { file = some (t.to_string_pretty c) })
      else (err io, record s { file = s.left })

  -- The configuration is changed in memory also where it cannot be saved.
  abbrev pub saved : ConnectionConfig → Store → Configured
  saved c s = let written = save c s in (written.0, c, written.1)

  unfoldable pub load_or_create : Store → Outcome ConfigError ConnectionConfig × Store
  unfolding save
  load_or_create s = elim s.file [
    | some bytes ↦ elim (t.from_str bytes) [ none ↦ (err bad_json, s) | some c ↦ (ok c, s) ]
    | none ↦ elim (save default_config s).0 [
      | ok u ↦ (ok default_config, (save default_config s).1)
      | err e ↦ (err e, (save default_config s).1)
      | panic ↦ (panic, (save default_config s).1)
    ]
  ]

  unfoldable pub set_p2p_enabled : Bool → ConnectionConfig → Store → Configured
  unfolding save
  set_p2p_enabled enabled c = saved (record c { p2p_enabled = enabled })

  unfoldable pub set_alias : List ℕ → ConnectionConfig → Store → Configured
  unfolding save
  set_alias alias c = saved (record c { alias = if is_empty alias then none else some alias })

  unfoldable pub add_trusted_device :
      ℕ → List ℕ → Option (List ℕ) → ConnectionConfig → Store → Configured
  unfolding save insert without_spaces
  add_trusted_device now device_id name c = saved (record c {
    trusted_devices =
        insert (without_spaces device_id)
          (record {
            device_id = without_spaces device_id;
            name = name;
            trusted_at = now;
            last_connected = some now;
          })
          c.trusted_devices;
  })

  unfoldable pub remove_trusted_device : List ℕ → ConnectionConfig → Store → Configured
  unfolding save remove without_spaces
  remove_trusted_device device_id c =
      saved (record c { trusted_devices = remove (without_spaces device_id) c.trusted_devices })

  -- A device that is not trusted is neither added nor saved.
  unfoldable pub update_last_connected : ℕ → List ℕ → ConnectionConfig → Store → Configured
  unfolding save find insert without_spaces
  update_last_connected now device_id c s =
      elim (find (without_spaces device_id) c.trusted_devices) [
        | none ↦ (ok tt, c, s)
        | some device ↦
            saved
              (record c {
                trusted_devices =
                    insert (without_spaces device_id) (record device { last_connected = some now })
                      c.trusted_devices;
              })
              s
      ]

  unfoldable pub update_setting : List ℕ → SettingValue → ConnectionConfig → Store → Configured
  unfolding save with_setting
  update_setting key value c = saved (with_setting key value c)
