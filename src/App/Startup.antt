-- ===== src/App/Startup.antt =====
-- app/src-tauri/src/main.rs: `main`, up to the window, and the state that the window starts with. clap parses the
-- arguments; the HTTP client of the single sign-on is built.
pub mod Saved
pub mod Headless
mod Tests
use secure_desk.Base.{ℕ, Bool, true, false, Option, none, some, List, [], if◌then◌else◌}
use secure_desk.Base.Outcome.{Outcome, ok, err, panic}
use secure_desk.Identity.{Identity}
use secure_desk.Identity.Stored
use secure_desk.Config.{ConnectionConfig}
use secure_desk.Config
use secure_desk.License.Manager.{LicenseManager, new_manager}
use secure_desk.License.Manager
use secure_desk.Clipboard.{ClipboardManager}
use secure_desk.Clipboard
use secure_desk.Sso.{SsoConfig, SsoError}
use secure_desk.Sso
use secure_desk.Recording.{SessionRecorder}
use secure_desk.Transport.{Wire}
use secure_desk.Session.{Run, Noise}
use secure_desk.Host.{Host}
use secure_desk.Host
use secure_desk.Cli.{Cli}
use secure_desk.Cli.Handle.{Machine, Env, or_default, handle_cli}
use secure_desk.Cli.Listen.{run_headless_listen}
use secure_desk.App.Sessions.{Sessions}
use secure_desk.App.Relays.{Listener, first_addresses}

pub record AppState (S : Type 0) : Type 0 where
  pub identity : Identity
  pub listener : Listener S
  pub sessions : Sessions S
  pub connection_config : ConnectionConfig
  pub license_manager : LicenseManager
  pub clipboard_manager : ClipboardManager
  pub recorder : Option SessionRecorder
  pub sso_manager : SsoConfig

pub data Started (S : Type 0) : Type 0 where
  exits : ℕ → Started S
  listens : Run (Host S) (Unit {0}) → Started S
  panics : Started S
  window : AppState S → Started S

-- `SsoConfig::load().unwrap_or_default()`
abbrev pub loaded_or_default : Outcome SsoError SsoConfig → SsoConfig
loaded_or_default (ok c) = c
loaded_or_default (err e) = Sso.default_config
loaded_or_default panic = Sso.default_config

-- `expect`
abbrev pub expected :
    {E A S : Type 0} → Outcome E A → (A → Started S × Machine) → Machine → Started S × Machine
expected (ok a) next w = next a
expected (err e) next w = (panics, w)
expected panic next w = (panics, w)

-- The end of the headless mode: an error gives the exit code 1.
abbrev pub ended : {S : Type 0} → Option (Run (Host S) (Unit {0})) → Started S
ended none = exits 1
ended (some r) = listens r

module _ {N S : Type 0} (n : Noise N S) (e : Env) (sso_text : Sso.Text) where
  abbrev pub state_of : Cli → Sso.Store → Identity → ConnectionConfig → LicenseManager → AppState S
  state_of cli sso identity config licenses = record {
    identity = identity;
    listener = record {
      relay_addresses = first_addresses cli.relay;
      host_session = none;
      tasks = 0;
    };
    sessions = record { client_sessions = []; active_session_id = none; session_counter = 0 };
    connection_config = config;
    license_manager = licenses;
    clipboard_manager = Clipboard.new_manager;
    recorder = none;
    sso_manager = loaded_or_default (Sso.load sso_text sso);
  }

  abbrev pub opened : Cli → Sso.Store → Machine → Identity → Started S × Machine
  opened cli sso w identity =
      let (config, settings) = Config.load_or_create e.serde w.settings in
      let m = new_manager e.crypto e.label identity.x25519_public e.storage in
      let (_, m', licenses) = Manager.load e.crypto e.now m w.licenses in
      (
        window (state_of cli sso identity (or_default config) m'),
        record w { settings = settings; licenses = licenses },
      )

  abbrev pub open_window : Cli → Sso.Store → Machine → Started S × Machine
  open_window cli sso w =
      let (got, identity_file) = Stored.load_or_create e.keys e.fresh w.identity in
      let w' = record w { identity = identity_file } in expected got (opened cli sso w') w'

  abbrev pub listen : (List ℕ → Option Wire) → List Host.Env → Cli → Machine → Started S × Machine
  listen dial rounds cli w = (
    ended (run_headless_listen n e.keys e.fresh dial cli.relay w.identity rounds),
    record w { identity = (Stored.load_or_create e.keys e.fresh w.identity).1 },
  )

  unfoldable pub main :
      (List ℕ → Option Wire) → List Host.Env → Cli → Sso.Store → Machine → Started S × Machine
  unfolding handle_cli run_headless_listen Stored.load_or_create Config.load_or_create new_manager
      Manager.load first_addresses Clipboard.new_manager Sso.load
  main dial rounds cli sso w =
      let (code, _, w') = handle_cli e cli w in
      elim code [
        | some c ↦ (exits c, w')
        | none ↦ if cli.listen then listen dial rounds cli w' else open_window cli sso w'
      ]
