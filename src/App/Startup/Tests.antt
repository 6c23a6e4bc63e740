-- ===== src/App/Startup/Tests.antt =====
-- Runs of app/src-tauri/src/main.rs from its start on, and its theorems, with toys in place of the libraries.
use secure_desk.Base.{
  Bool, ◌==◌, if◌then◌else◌, ℕ, ◌≡◌, ◌≢◌, refl, true, false, Option, none, some, List, [], ◌∷◌,
}
use secure_desk.Base.Outcome.{ok}
use secure_desk.Base.Text.{ascii}
use secure_desk.Config.{ConnectionConfig, default_config}
use secure_desk.Config
use secure_desk.License.Manager.{new_manager}
use secure_desk.Clipboard.{ClipboardData, image, ClipboardManager}
use secure_desk.Clipboard
use secure_desk.Sso.{set_require_sso, SsoConfig, Store, OidcProvider, okta, get_provider}
use secure_desk.Sso
use secure_desk.Sso.Info.{SsoInfo}
use secure_desk.Sso.Login.{Http, PkceChallenge, authorization_url, unsuccessful}
use secure_desk.Transport.{read_exact, unexpected_eof}
use secure_desk.Session.{read_frame, read_bytes, io}
use secure_desk.Host.{Host}
use secure_desk.Host.Loop.{run_once}
use secure_desk.Client.Tests as Sessions
use secure_desk.Cli.{Cli}
use secure_desk.Cli.Handle.{Machine, Env}
use secure_desk.Cli.Listen.{dead}
use secure_desk.Cli.Tests as Commands
use secure_desk.App.Relays.{Listener, relay_servers, task}
use secure_desk.App.Relays.Failover.{task-offline}
use secure_desk.App.Login.{set_sso_required, complete_sso_login, start_sso_login}
use secure_desk.App.Login.Verifier.{complete_sso_login-start_sso_login}
use secure_desk.App.Startup.{AppState, main}
use secure_desk.Identity.Stored
use secure_desk.App.Startup.Headless.{is_window, main-is_window}
use secure_desk.App.Startup.Saved.{change, kept, with_sso, require_login, main-change}
use secure_desk.App.Preferences.{set_p2p_enabled, set_setting_bool}
use secure_desk.App.Preferences.Restart.{
  Preference, p2p, set_bool, perform_each, Holds, perform_each-Holds,
}
use secure_desk.App.Copying.{Base64, content_of, set_local_clipboard, get_local_clipboard}
use secure_desk.App.Copying.Sizes.{get_local_clipboard-set_local_clipboard}

-- An image of two pixels
abbrev pixels : ClipboardData
pixels = image 2 1 (1 ∷ 2 ∷ [])

abbrev plain : Base64
plain = record { encode = λ b. b; decode = λ b. some b }

get_local_clipboard-set_local_clipboard_example :
    ((set_local_clipboard plain (λ d. 0) (content_of plain pixels) Clipboard.new_manager).0 ≡ ok tt)
    × (get_local_clipboard plain
          (set_local_clipboard plain (λ d. 0) (content_of plain pixels) Clipboard.new_manager).1
        ≡ some (content_of plain pixels))
    × ((set_local_clipboard plain
          (λ d. 0)
          (content_of plain pixels)
          Clipboard.new_manager).1.last_content
        ≡ some (image 0 0 (1 ∷ 2 ∷ [])))
get_local_clipboard-set_local_clipboard_example =
    get_local_clipboard-set_local_clipboard plain (λ d. 0) pixels Clipboard.new_manager
      (λ bytes. refl)

-- A provider that gives no tokens
abbrev refusing : Http
refusing = record { post = λ url form. unsuccessful; user_info = λ url token. none }

abbrev toy_text : Sso.Text
toy_text = record { to_string_pretty = λ c. []; from_str = λ bytes. none }

abbrev provider : OidcProvider
provider = okta (ascii "d") (ascii "c")

abbrev signed : SsoConfig
signed = record Sso.default_config { providers = provider ∷ [] }

abbrev store : Store
store = record { file = none; writable = true; left = none }

abbrev challenge : PkceChallenge
challenge = record { code_verifier = ascii "v"; code_challenge = ascii "c" }

complete_sso_login-start_sso_login_example :
    (start_sso_login provider.name
        (ascii "http://127.0.0.1:1/callback")
        (ascii "s")
        challenge
        signed
      ≡ ok (
        authorization_url provider
            (ascii "http://127.0.0.1:1/callback")
            (ascii "s")
            (some challenge),
        ascii "http://127.0.0.1:1/callback",
      ))
    × ((info : SsoInfo)
        → (complete_sso_login toy_text refusing 5 provider.name
            (ascii "http://127.0.0.1:1/callback")
            (ascii "s")
            (some (ascii "GET /callback?code=x&state=s HTTP/1.1"))
            signed
            store).0
          ≢ ok info)
unfolding okta get_provider
complete_sso_login-start_sso_login_example =
    complete_sso_login-start_sso_login toy_text refusing 5 provider.name
      (ascii "http://127.0.0.1:1/callback") (ascii "s") challenge
      (some (ascii "GET /callback?code=x&state=s HTTP/1.1")) signed store provider refl refl
      (λ form h. refl)

-- A host whose relay has closed the connection
abbrev lost : Host ℕ
lost = dead Sessions.host Sessions.wire

abbrev listener : Listener ℕ
listener = record { relay_addresses = relay_servers; host_session = some lost; tasks = 1 }

task-offline_example :
    task Sessions.toy
      ((Sessions.env, λ relay. none) ∷ (Sessions.env, λ relay. some Sessions.host) ∷ [])
      listener
    ≡ some (record listener { host_session = none })
unfolding run_once read_frame read_bytes read_exact
task-offline_example =
    task-offline Sessions.toy Sessions.env (λ relay. none)
      ((Sessions.env, λ relay. some Sessions.host) ∷ []) lost lost (io unexpected_eof) listener refl
      (refl, (refl, tt))

-- The arguments that open the window
abbrev no_arguments : Cli
no_arguments = record Commands.cli { set_alias = none; command = none }

-- A text of a configuration for single sign-on of which only the requirement is kept
abbrev required_text : SsoConfig → List ℕ
required_text c = if c.require_sso then 1 ∷ [] else 0 ∷ []

abbrev required_read : List ℕ → Option SsoConfig
required_read [] = none
required_read (b ∷ bs) = some (record Sso.default_config { require_sso = b == 1 })

abbrev required : Sso.Text
required = record { to_string_pretty = required_text; from_str = required_read }

main-change_example :
    let after =
      change required refusing (λ url. none) (require_login true) Sso.default_config store in
    main Sessions.toy Commands.env required (λ relay. none) [] no_arguments after.2 Commands.machine
    ≡ with_sso (kept required store after) (
        main Sessions.toy Commands.env required
          (λ relay. none)
          []
          no_arguments
          store
          Commands.machine)
unfolding set_sso_required set_require_sso Sso.save Sso.load
main-change_example =
    main-change required refusing Sessions.toy Commands.env (λ relay. none) [] no_arguments
      (λ url. none) (require_login true) Sso.default_config store Commands.machine refl

-- A text of a configuration of which only the two flags for direct connections are kept
abbrev flag : Bool → ℕ
flag true = 1
flag false = 0

abbrev flags_text : ConnectionConfig → List ℕ
flags_text c = flag c.p2p_enabled ∷ flag c.settings.p2p_enabled ∷ []

abbrev flags_read : List ℕ → Option ConnectionConfig
flags_read [] = none
flags_read (a ∷ []) = none
flags_read (a ∷ b ∷ bs) = some (record default_config {
  p2p_enabled = a == 1;
  settings = record default_config.settings { p2p_enabled = b == 1 };
})

abbrev flags_env : Env
flags_env = record Commands.env {
  serde = record { to_string_pretty = flags_text; from_str = flags_read };
}

abbrev state : AppState ℕ
state = record {
  identity = Commands.env.fresh;
  listener = listener;
  sessions = record { client_sessions = []; active_session_id = none; session_counter = 0 };
  connection_config = default_config;
  license_manager = new_manager Commands.env.crypto [] [] [];
  clipboard_manager = Clipboard.new_manager;
  recorder = none;
  sso_manager = Sso.default_config;
}

abbrev files : Machine
files = record Commands.machine {
  settings = record { file = some (1 ∷ 1 ∷ []); writable = true; left = none };
}

abbrev preferences : List (Preference × ℕ)
preferences = (p2p false, 5) ∷ (set_bool (ascii "p2p_enabled") true, 6) ∷ []

perform_each-Holds_example :
    let (state', files') = perform_each flags_env preferences state files in
    Holds flags_env.serde state'.connection_config files'.settings
unfolding set_p2p_enabled set_setting_bool Config.set_p2p_enabled Config.update_setting
    Config.with_setting Config.save Config.load_or_create
perform_each-Holds_example =
    perform_each-Holds flags_env preferences state files (refl, (refl, tt))
      (record { can_write = refl; is_there = refl })

main-is_window_example :
    is_window
      (main Sessions.toy Commands.env required
        (λ relay. none)
        []
        (record no_arguments { headless = true; service = true })
        store
        Commands.machine).0
    ≡ true
unfolding Stored.load_or_create
main-is_window_example =
    main-is_window Sessions.toy Commands.env required (λ relay. none) []
      (record no_arguments { headless = true; service = true }) store Commands.machine
