-- ===== src/Cli/Handle.antt =====
-- app/src-tauri/src/cli.rs: `handle_cli` and `handle_subcommand`. The files are `Machine`, what the libraries and the
-- system give is `Env`.
use secure_desk.Base.{ℕ, ◌/◌, ◌%◌, Option, none, some, List, [], ◌∷◌, ◌++◌, map, if◌then◌else◌}
use secure_desk.Base.Outcome.{Outcome, ok, err, panic}
use secure_desk.Base.Text.{ascii, decimal}
use secure_desk.Config
use secure_desk.Config.{
  ConnectionConfig, AppSettings, TrustedDevice, Configured, default_config, get_trusted_devices,
  set_alias, update_setting, add_trusted_device, remove_trusted_device,
}
use secure_desk.Identity.{Keys, Identity, device_id}
use secure_desk.Identity.Stored
use secure_desk.Identity.Stored.{regenerate}
use secure_desk.License.{as_str}
use secure_desk.License.Manager
use secure_desk.License.Manager.{
  Crypto, LicenseManager, LicenseInfo, license_info, new_manager, activate, deactivate,
}
use secure_desk.Recording.{Json}
use secure_desk.Recording.Info.{RecordingInfo, list_recordings, delete_recording}
use secure_desk.Cli.{
  Cli, Commands, LicenseAction, ConfigAction, RecordingAction, license, config, recording, info,
  show, trusted_devices, get_value, set_value, trust, untrust, list_all, dir, delete,
}
use secure_desk.Cli.Format.{bool_text, signed_text, two_digits}
use secure_desk.Cli.Settings.{shown, setting_value}

abbrev pub Entries : Type 0
Entries = List (List ℕ × List ℕ)

pub record Machine : Type 0 where
  pub identity : Stored.Store
  pub settings : Config.Store
  pub licenses : Manager.Store
  pub recordings : Entries

-- `directory` is where recordings lie, if the environment says so; `fresh` is a new identity; `label` and `storage` are
-- the texts around the key of licenses, `nonce` what the generator of random numbers gives.
pub record Env : Type 0 where
  pub keys : Keys
  pub fresh : Identity
  pub serde : Config.Text
  pub crypto : Crypto
  pub json : Json
  pub label : List ℕ
  pub storage : List ℕ
  pub nonce : Option (List ℕ)
  pub now : ℕ
  pub directory : Option (List ℕ)
  pub remove_file : List ℕ → Entries → Option Entries

-- The exit code, if the program is to end; the printed lines; the files
abbrev pub Ran : Type 0
Ran = Option ℕ × List (List ℕ) × Machine

abbrev pub printed : List (List ℕ) → Machine → Ran
printed lines w = (some 0, lines, w)

abbrev pub failed : Machine → Ran
failed w = (some 1, [], w)

-- The lines of a call that returned, a failure where it reports an error
abbrev pub report {ℓ} :
    {E : Type 0} {A : Type ℓ} → Outcome E A → (A → List (List ℕ)) → Machine → Ran
report (ok a) lines w = printed (lines a) w
report (err e) lines w = failed w
report panic lines w = failed w

-- The action on a value that is there, a failure where it is not
abbrev pub require {ℓ} : {A : Type ℓ} → Option A → Machine → (A → Ran) → Ran
require none w action = failed w
require (some a) w action = action a

abbrev pub require_ok {ℓ} : {E : Type 0} {A : Type ℓ} → Outcome E A → Machine → (A → Ran) → Ran
require_ok (ok a) w action = action a
require_ok (err e) w action = failed w
require_ok panic w action = failed w

-- `load_or_create().unwrap_or_default()`
abbrev pub or_default : Outcome Config.ConfigError ConnectionConfig → ConnectionConfig
or_default (ok c) = c
or_default (err e) = default_config
or_default panic = default_config

abbrev pub optional_line {ℓ} : {A : Type ℓ} → List ℕ → (A → List ℕ) → Option A → List (List ℕ)
optional_line label text none = []
optional_line label text (some a) = (label ++ text a) ∷ []

abbrev pub info_lines : LicenseInfo → List (List ℕ)
info_lines i =
    (ascii "License Tier: " ++ i.tier)
    ∷ (ascii "Max Sessions: " ++ decimal i.max_sessions)
    ∷ (ascii "Valid: " ++ bool_text i.valid)
    ∷ (optional_line (ascii "Key ID: ") (λ k. k) i.key_id
        ++ (optional_line (ascii "Expires: ") decimal i.expires_at
            ++ optional_line (ascii "Days Remaining: ") signed_text i.days_left))

abbrev pub setting_lines : AppSettings → List (List ℕ)
setting_lines s =
    (ascii "P2P Enabled: " ++ bool_text s.p2p_enabled)
    ∷ (ascii "Require Approval: " ++ bool_text s.require_approval)
    ∷ (ascii "Lock on Disconnect: " ++ bool_text s.lock_on_disconnect)
    ∷ (ascii "Session Timeout: " ++ (decimal s.session_timeout ++ (b's' ∷ [])))
    ∷ (ascii "Start with System: " ++ bool_text s.start_with_windows)
    ∷ (ascii "Minimize to Tray: " ++ bool_text s.minimize_to_tray)
    ∷ (ascii "Show Notifications: " ++ bool_text s.show_notifications)
    ∷ (ascii "Connection Quality: " ++ s.connection_quality)
    ∷ []

abbrev pub device_line : TrustedDevice → List ℕ
device_line d =
    d.device_id ++ (ascii " - " ++ elim d.name [ none ↦ ascii "(unnamed)" | some name ↦ name ])

abbrev pub device_lines : List TrustedDevice → List (List ℕ)
device_lines [] = ascii "No trusted devices" ∷ []
device_lines (d ∷ ds) = map device_line (d ∷ ds)

abbrev pub recording_line : RecordingInfo → List ℕ
recording_line r =
    let duration_secs = r.duration_ms / 1000 in
    r.filename
    ++ (ascii " - "
        ++ (decimal (duration_secs / 60)
            ++ (b':'
                ∷ (two_digits (duration_secs % 60)
                    ++ (ascii " - "
                        ++ (r.remote_device_name
                            ++ (ascii " - " ++ (decimal r.frame_count ++ ascii " frames"))))))))

abbrev pub recording_lines : List RecordingInfo → List (List ℕ)
recording_lines [] = ascii "No recordings found" ∷ []
recording_lines (r ∷ rs) = map recording_line (r ∷ rs)

module _ (e : Env) where
  abbrev pub with_licenses : Machine → Manager.Store → Machine
  with_licenses w s = record w { licenses = s }

  -- The manager once its file is read, whatever comes of that
  abbrev pub run_license : LicenseAction → LicenseManager → Machine → Ran
  run_license info m w = printed (info_lines (license_info e.now m)) w
  run_license (LicenseAction.activate key) m w =
      let (r, _, s) = activate e.crypto e.now e.nonce key m w.licenses in
      report r (λ tier. (ascii "License activated: " ++ as_str tier) ∷ []) (with_licenses w s)
  run_license LicenseAction.deactivate m w =
      let (r, _, s) = deactivate e.crypto m w.licenses in
      report r (λ u. ascii "License deactivated" ∷ []) (with_licenses w s)

  unfoldable pub handle_license : LicenseAction → Machine → Ran
  unfolding Stored.load_or_create new_manager Manager.load activate deactivate license_info
  handle_license action w =
      let (got, stored) = Stored.load_or_create e.keys e.fresh w.identity in
      let w' = record w { identity = stored } in
      require_ok got w' (λ identity.
        let m = new_manager e.crypto e.label identity.x25519_public e.storage in
        let (_, m', s) = Manager.load e.crypto e.now m w.licenses in
        run_license action m' (with_licenses w' s))

  -- The end of a change that is saved
  abbrev pub changed : List ℕ → Machine → Configured → Ran
  changed line w (r, _, s) = report r (λ u. line ∷ []) (record w { settings = s })

  abbrev pub run_config : ConfigAction → ConnectionConfig → Machine → Ran
  run_config show c w = printed (setting_lines c.settings) w
  run_config (get_value key) c w =
      require (shown key c.settings) w (λ value. printed (value ∷ []) w)
  run_config (set_value key value) c w = require (setting_value key value) w (λ v.
      changed (ascii "Set " ++ (key ++ (ascii " = " ++ value))) w
        (update_setting e.serde key v c w.settings))
  run_config trusted_devices c w = printed (device_lines (get_trusted_devices c)) w
  run_config (trust id name) c w =
      changed (ascii "Device " ++ (id ++ ascii " trusted")) w
        (add_trusted_device e.serde e.now id name c w.settings)
  run_config (untrust id) c w =
      changed (ascii "Device " ++ (id ++ ascii " removed from trusted list")) w
        (remove_trusted_device e.serde id c w.settings)

  -- A configuration that is read, or made, before the action
  abbrev pub with_config : (ConnectionConfig → Machine → Ran) → Machine → Ran
  with_config action w =
      let (got, s) = Config.load_or_create e.serde w.settings in
      action (or_default got) (record w { settings = s })

  unfoldable pub handle_config : ConfigAction → Machine → Ran
  unfolding Config.load_or_create shown setting_value update_setting add_trusted_device
      remove_trusted_device
  handle_config action w = with_config (run_config action) w

  unfoldable pub handle_recording : RecordingAction → Machine → Ran
  unfolding list_recordings delete_recording
  handle_recording list_all w =
      require e.directory w
        (λ d. printed (recording_lines (list_recordings e.json d w.recordings)) w)
  handle_recording dir w = require e.directory w (λ d. printed (d ∷ []) w)
  handle_recording (delete path) w = require e.directory w (λ d.
      require_ok (delete_recording e.remove_file d path w.recordings) w
        (λ rest. printed (ascii "Recording deleted" ∷ []) (record w { recordings = rest })))

  unfoldable pub handle_subcommand : Commands → Machine → Ran
  unfolding handle_license handle_config handle_recording
  handle_subcommand (license action) w = handle_license action w
  handle_subcommand (config action) w = handle_config action w
  handle_subcommand (recording action) w = handle_recording action w

  -- What `--id` and `--new-id` do with the identity
  abbrev pub print_id : List ℕ → Stored.Kept → Machine → Ran
  print_id label (got, stored) w =
      report got (λ i. (label ++ device_id e.keys i) ∷ []) (record w { identity = stored })

  abbrev pub print_alias : ConnectionConfig → Machine → Ran
  print_alias c w =
      printed (elim c.alias [ none ↦ ascii "(no alias set)" ∷ [] | some a ↦ a ∷ [] ]) w

  abbrev pub store_alias : List ℕ → ConnectionConfig → Machine → Ran
  store_alias alias c w =
      changed (ascii "Alias set to: " ++ alias) w (set_alias e.serde alias c w.settings)

  unfoldable pub handle_cli : Cli → Machine → Ran
  unfolding Stored.load_or_create regenerate device_id Config.load_or_create set_alias
      handle_subcommand
  handle_cli cli w =
      if cli.get_id
      then print_id [] (Stored.load_or_create e.keys e.fresh w.identity) w
      else if cli.new_id
      then print_id (ascii "New device ID: ") (regenerate e.fresh w.identity) w
      else if cli.get_alias
      then with_config print_alias w
      else elim cli.set_alias [
        | some alias ↦ with_config (store_alias alias) w
        | none ↦ elim cli.command [
          | some command ↦ handle_subcommand command w
          | none ↦ (none, [], w)
        ]
      ]
