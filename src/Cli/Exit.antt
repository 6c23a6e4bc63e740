-- ===== src/Cli/Exit.antt =====
-- app/src-tauri/src/cli.rs: when the program ends after its arguments.
use secure_desk.Base.{
  ℕ, ◌≡◌, refl, ap, Bool, true, false, ◌||◌, Option, none, some, List, if◌then◌else◌,
}
use secure_desk.Base.Outcome.{Outcome, ok, err, panic}
use secure_desk.Config
use secure_desk.Config.{
  ConnectionConfig, set_alias, update_setting, add_trusted_device, remove_trusted_device,
}
use secure_desk.Identity.Stored
use secure_desk.Identity.Stored.{regenerate}
use secure_desk.Cli.{
  Cli, Commands, LicenseAction, ConfigAction, RecordingAction, is_some, license, config, recording,
  info, show, trusted_devices, get_value, set_value, trust, untrust, list_all, dir, delete,
}
use secure_desk.License.Manager.{LicenseManager, activate, deactivate}
use secure_desk.Cli.Settings.{shown, setting_value}
use secure_desk.Cli.Handle.{
  Machine, Env, Ran, report, handle_cli, handle_subcommand, handle_license, handle_config,
  handle_recording, run_config, run_license, require, require_ok, or_default,
}
use secure_desk.Recording.Info.{delete_recording}

-- The program ends.
abbrev Ends : Ran → Type 0
Ends r = is_some r.0 ≡ true

report-Ends {ℓ} :
    {E : Type 0} {A : Type ℓ} (o : Outcome E A) (lines : A → List (List ℕ)) (w : Machine)
    → Ends (report o lines w)
report-Ends (ok a) lines w = refl
report-Ends (err e) lines w = refl
report-Ends panic lines w = refl

require-Ends {ℓ} :
    {A : Type ℓ} (o : Option A) (w : Machine) (action : A → Ran)
    → ((a : A) → Ends (action a))
    → Ends (require o w action)
require-Ends none w action h = refl
require-Ends (some a) w action h = h a

require_ok-Ends {ℓ} :
    {E : Type 0} {A : Type ℓ} (o : Outcome E A) (w : Machine) (action : A → Ran)
    → ((a : A) → Ends (action a))
    → Ends (require_ok o w action)
require_ok-Ends (ok a) w action h = h a
require_ok-Ends (err e) w action h = refl
require_ok-Ends panic w action h = refl

chosen-Ends {ℓ κ} :
    {X : Type ℓ} {Y : Type κ} (a b c : Bool) (o : Option X) (p : Option Y) (x y z n : Ran)
    (f : X → Ran) (g : Y → Ran)
    → Ends x
    → Ends y
    → Ends z
    → ((s : X) → Ends (f s))
    → ((t : Y) → Ends (g t))
    → n.0 ≡ none
    → is_some
        (if a
          then x
          else if b
          then y
          else if c
          then z
          else elim o [ some s ↦ f s | none ↦ elim p [ some t ↦ g t | none ↦ n ] ]).0
      ≡ (a || b || c || is_some o || is_some p)
chosen-Ends true b c o p x y z n f g hx hy hz hf hg hn = hx
chosen-Ends false true c o p x y z n f g hx hy hz hf hg hn = hy
chosen-Ends false false true o p x y z n f g hx hy hz hf hg hn = hz
chosen-Ends false false false (some s) p x y z n f g hx hy hz hf hg hn = hf s
chosen-Ends false false false none (some t) x y z n f g hx hy hz hf hg hn = hg t
chosen-Ends false false false none none x y z n f g hx hy hz hf hg hn = ap is_some hn

module _ (e : Env) where
  run_license-Ends :
      (action : LicenseAction) (m : LicenseManager) (w : Machine) → Ends (run_license e action m w)
  run_license-Ends info m w = refl
  run_license-Ends (LicenseAction.activate key) m w =
      report-Ends (activate e.crypto e.now e.nonce key m w.licenses).0 _ _
  run_license-Ends LicenseAction.deactivate m w =
      report-Ends (deactivate e.crypto m w.licenses).0 _ _

  handle_license-Ends : (action : LicenseAction) (w : Machine) → Ends (handle_license e action w)
  unfolding handle_license
  handle_license-Ends action w =
      require_ok-Ends (Stored.load_or_create e.keys e.fresh w.identity).0 _ _
        (λ identity. run_license-Ends action _ _)

  run_config-Ends :
      (action : ConfigAction) (c : ConnectionConfig) (w : Machine) → Ends (run_config e action c w)
  run_config-Ends show c w = refl
  run_config-Ends (get_value key) c w = require-Ends (shown key c.settings) w _ (λ value. refl)
  run_config-Ends (set_value key value) c w =
      require-Ends (setting_value key value) w _
        (λ v. report-Ends (update_setting e.serde key v c w.settings).0 _ _)
  run_config-Ends trusted_devices c w = refl
  run_config-Ends (trust id name) c w =
      report-Ends (add_trusted_device e.serde e.now id name c w.settings).0 _ _
  run_config-Ends (untrust id) c w =
      report-Ends (remove_trusted_device e.serde id c w.settings).0 _ _

  handle_recording-Ends :
      (action : RecordingAction) (w : Machine) → Ends (handle_recording e action w)
  unfolding handle_recording
  handle_recording-Ends list_all w = require-Ends e.directory w _ (λ d. refl)
  handle_recording-Ends dir w = require-Ends e.directory w _ (λ d. refl)
  handle_recording-Ends (delete path) w =
      require-Ends e.directory w _ (λ d.
        require_ok-Ends (delete_recording e.remove_file d path w.recordings) w _ (λ rest. refl))

  handle_subcommand-Ends : (command : Commands) (w : Machine) → Ends (handle_subcommand e command w)
  unfolding handle_subcommand handle_config
  handle_subcommand-Ends (license action) w = handle_license-Ends action w
  handle_subcommand-Ends (config action) w = run_config-Ends action _ _
  handle_subcommand-Ends (recording action) w = handle_recording-Ends action w

  -- The arguments end the program exactly when one of them asks for an answer on the terminal.
  pub handle_cli-Ends :
      (cli : Cli) (w : Machine)
      → is_some (handle_cli e cli w).0 ≡ (
          cli.get_id || cli.new_id || cli.get_alias || is_some cli.set_alias || is_some cli.command)
  unfolding handle_cli
  handle_cli-Ends cli w =
      chosen-Ends cli.get_id cli.new_id cli.get_alias cli.set_alias cli.command _ _ _ _ _ _
        (report-Ends (Stored.load_or_create e.keys e.fresh w.identity).0 _ _)
        (report-Ends (regenerate e.fresh w.identity).0 _ _) refl
        (λ alias.
          report-Ends
            (set_alias e.serde alias (or_default (Config.load_or_create e.serde w.settings).0)
              (Config.load_or_create e.serde w.settings).1).0
            _ _)
        (λ command. handle_subcommand-Ends command w) refl
