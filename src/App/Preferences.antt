-- ===== src/App/Preferences.antt =====
-- app/src-tauri/src/main.rs: the commands for the identity, the settings, the trusted devices and the license. Each locks one part
-- of the state of the program, and writes a file.
pub mod Restart
use secure_desk.Base.{ℕ, Bool, Option, none, some, List, map}
use secure_desk.Base.Outcome.{Outcome, ok, err, panic}
use secure_desk.Identity.{device_id}
use secure_desk.Identity
use secure_desk.Identity.Stored.{regenerate}
use secure_desk.Identity.Stored
use secure_desk.Config.{
  ConnectionConfig, AppSettings, SettingValue, bool, text, number, ConfigError, TrustedDevice,
  Configured, update_setting, is_trusted,
}
use secure_desk.Config
use secure_desk.License.{as_str}
use secure_desk.License.Manager.{
  LicenseError, LicenseInfo, Licensed, current_tier, license_info, activate, deactivate,
}
use secure_desk.Cli.Handle.{Machine, Env}
use secure_desk.App.Startup.{AppState}

-- A result, and the state and the files that a command leaves
abbrev pub Changed : Type 0 → Type 0 → Type 0 → Type 0
Changed E A S = Outcome E A × AppState S × Machine

abbrev pub configured :
    {S : Type 0} → Configured → AppState S → Machine → Changed ConfigError (Unit {0}) S
configured (r, c, s) state w =
    (r, record state { connection_config = c }, record w { settings = s })

abbrev pub licensed :
    {A B S : Type 0} → (A → B) → Licensed A → AppState S → Machine → Changed LicenseError B S
licensed f (ok a, m, s) state w =
    (ok (f a), record state { license_manager = m }, record w { licenses = s })
licensed f (err e, m, s) state w =
    (err e, record state { license_manager = m }, record w { licenses = s })
licensed f (panic, m, s) state w =
    (panic, record state { license_manager = m }, record w { licenses = s })

-- The identity in memory is replaced once the new one is written.
abbrev pub identified :
    {S : Type 0}
    → Identity.Keys
    → Stored.Kept
    → AppState S
    → Machine
    → Changed Identity.Error (List ℕ) S
identified keys (ok i, s) state w =
    (ok (device_id keys i), record state { identity = i }, record w { identity = s })
identified keys (err e, s) state w = (err e, state, record w { identity = s })
identified keys (panic, s) state w = (panic, state, record w { identity = s })

module _ {S : Type 0} (e : Env) where
  unfoldable pub get_device_id : AppState S → List ℕ
  unfolding device_id
  get_device_id state = device_id e.keys state.identity

  unfoldable pub regenerate_device_id : AppState S → Machine → Changed Identity.Error (List ℕ) S
  unfolding regenerate device_id
  regenerate_device_id state w = identified e.keys (regenerate e.fresh w.identity) state w

  unfoldable pub set_p2p_enabled : Bool → AppState S → Machine → Changed ConfigError (Unit {0}) S
  unfolding Config.set_p2p_enabled
  set_p2p_enabled enabled state w =
      configured (Config.set_p2p_enabled e.serde enabled state.connection_config w.settings) state w

  unfoldable pub add_trusted_device :
      List ℕ → Option (List ℕ) → AppState S → Machine → Changed ConfigError (Unit {0}) S
  unfolding Config.add_trusted_device
  add_trusted_device id name state w =
      configured
        (Config.add_trusted_device e.serde e.now id name state.connection_config w.settings) state w

  unfoldable pub remove_trusted_device :
      List ℕ → AppState S → Machine → Changed ConfigError (Unit {0}) S
  unfolding Config.remove_trusted_device
  remove_trusted_device id state w =
      configured (Config.remove_trusted_device e.serde id state.connection_config w.settings) state
        w

  abbrev pub set_setting :
      List ℕ → SettingValue → AppState S → Machine → Changed ConfigError (Unit {0}) S
  set_setting key value state w =
      configured (update_setting e.serde key value state.connection_config w.settings) state w

  unfoldable pub set_setting_bool :
      List ℕ → Bool → AppState S → Machine → Changed ConfigError (Unit {0}) S
  unfolding update_setting
  set_setting_bool key value = set_setting key (bool value)

  unfoldable pub set_setting_string :
      List ℕ → List ℕ → AppState S → Machine → Changed ConfigError (Unit {0}) S
  unfolding update_setting
  set_setting_string key value = set_setting key (text value)

  unfoldable pub set_setting_number :
      List ℕ → ℕ → AppState S → Machine → Changed ConfigError (Unit {0}) S
  unfolding update_setting
  set_setting_number key value = set_setting key (number value)

  unfoldable pub get_license_info : AppState S → LicenseInfo
  unfolding license_info
  get_license_info state = license_info e.now state.license_manager

  unfoldable pub get_license_tier : AppState S → List ℕ
  unfolding current_tier as_str
  get_license_tier state = as_str (current_tier e.now state.license_manager)

  unfoldable pub activate_license : List ℕ → AppState S → Machine → Changed LicenseError (List ℕ) S
  unfolding activate as_str
  activate_license key state w =
      licensed as_str (activate e.crypto e.now e.nonce key state.license_manager w.licenses) state w

  unfoldable pub deactivate_license : AppState S → Machine → Changed LicenseError (Unit {0}) S
  unfolding deactivate
  deactivate_license state w =
      licensed (λ u. u) (deactivate e.crypto state.license_manager w.licenses) state w

unfoldable pub get_p2p_enabled : {S : Type 0} → AppState S → Bool
get_p2p_enabled state = state.connection_config.p2p_enabled

unfoldable pub is_device_trusted : {S : Type 0} → List ℕ → AppState S → Bool
unfolding is_trusted
is_device_trusted id state = is_trusted id state.connection_config

unfoldable pub get_trusted_devices : {S : Type 0} → AppState S → List TrustedDevice
unfolding Config.get_trusted_devices
get_trusted_devices state = Config.get_trusted_devices state.connection_config

unfoldable pub get_settings : {S : Type 0} → AppState S → AppSettings
get_settings state = state.connection_config.settings
