-- ===== src/Cli/Tests.antt =====
-- Runs of app/src-tauri/src/cli.rs, and its theorems, with toys in place of the libraries.
use secure_desk.Base.{ℕ, ◌≡◌, refl, true, false, Option, none, some, List, [], ◌∷◌}
use secure_desk.Base.Text.{ascii, decimal}
use secure_desk.Config
use secure_desk.Config.{ConnectionConfig, default_config, number, with_setting}
use secure_desk.Session.{done}
use secure_desk.Client.Tests as Sessions
use secure_desk.Cli.{Cli, get_value, set_value, config}
use secure_desk.Cli.Handle.{Machine, Env, handle_config}
use secure_desk.Cli.Listen.{listen_loop, dead, listen_loop-dead}
use secure_desk.Cli.Stored.{handle_config-get-set, handle_config-unreadable}
use secure_desk.Cli.Settings.{setting_value}
use secure_desk.Cli.Format.{bool_value, parse_u32}

-- "+60" is a number, "" and "4294967296" are none; "YES" is true.
numbers :
    (parse_u32 (ascii "+60") ≡ some 60)
    × (parse_u32 [] ≡ none)
    × (parse_u32 (ascii "4294967296") ≡ none)
    × (bool_value (ascii "YES") ≡ some true)
unfolding parse_u32 bool_value
numbers = (refl, refl, refl, refl)

abbrev sixty : ConnectionConfig
sixty = record default_config { settings = record default_config.settings { session_timeout = 60 } }

-- Any text is read as the default configuration with a timeout of 60 seconds, but for the text 0.
abbrev read : List ℕ → Option ConnectionConfig
read [] = some sixty
read (b ∷ bs) = none

abbrev pub env : Env
env = record {
  keys = record { x25519_public = λ k. k; verifying_key = λ k. k; digest = λ k. k };
  fresh = record { x25519_secret = []; x25519_public = []; ed25519_key = [] };
  serde = record { to_string_pretty = λ c. []; from_str = read };
  crypto = record {
    hash = λ k. k;
    to_vec = λ l. [];
    from_slice = λ k. none;
    base64_decode = λ k. none;
    encrypt = λ k n t. none;
    decrypt = λ k n t. none;
  };
  json = record { to_vec = λ m. []; from_slice = λ k. none };
  label = [];
  storage = [];
  nonce = none;
  now = 5;
  directory = none;
  remove_file = λ path d. none;
}

abbrev pub machine : Machine
machine = record {
  identity = record { file = none; writable = true; left = none };
  settings = record { file = none; writable = true; left = none };
  licenses = record { file = none; writable = true; left = none };
  recordings = [];
}

abbrev pub cli : Cli
cli = record {
  get_id = false;
  new_id = false;
  get_alias = false;
  set_alias = some (ascii "desk");
  service = false;
  listen = false;
  relay = none;
  connect_to = none;
  headless = false;
  command = some (config (get_value (ascii "p2p_enabled")));
}

handle_config-get-set_example :
    let set = handle_config env (set_value (ascii "session_timeout") (ascii "60")) machine in
    (set.0 ≡ some 0)
    × ((handle_config env (get_value (ascii "session_timeout")) set.2).1 ≡ decimal 60 ∷ [])
    × ((handle_config env (get_value (ascii "p2p_enabled")) set.2).1
        ≡ (handle_config env (get_value (ascii "p2p_enabled")) machine).1)
unfolding Config.load_or_create setting_value with_setting
handle_config-get-set_example =
    handle_config-get-set env (ascii "session_timeout") (ascii "60") (ascii "p2p_enabled")
      (number 60) default_config machine refl refl refl refl refl

-- A file that is no configuration
abbrev damaged : Machine
damaged = record machine {
  settings = record { file = some (0 ∷ []); writable = true; left = none };
}

handle_config-unreadable_example :
    let set = handle_config env (set_value (ascii "session_timeout") (ascii "60")) damaged in
    (set.0 ≡ some 0) × (set.2.settings.file ≡ some [])
unfolding setting_value
handle_config-unreadable_example =
    handle_config-unreadable env (ascii "session_timeout") (ascii "60") (0 ∷ []) (number 60) damaged
      refl refl refl refl

listen_loop-dead_example :
    listen_loop Sessions.toy (Sessions.env ∷ Sessions.env ∷ []) (dead Sessions.host Sessions.wire)
    ≡ done tt (dead Sessions.host Sessions.wire)
listen_loop-dead_example =
    listen_loop-dead Sessions.toy (Sessions.env ∷ Sessions.env ∷ []) Sessions.host Sessions.wire
