-- ===== src/App/Preferences/Restart.antt =====
-- app/src-tauri/src/main.rs: the settings of the running program, and those that the next start reads.
use secure_desk.Base.{ℕ, ◌≡◌, refl, Bool, true, Option, List, [], ◌∷◌}
use secure_desk.Base.Outcome.{ok}
use secure_desk.Config.{
  ConnectionConfig, IsRead, Store, Text, Configured, load_or_create, save, update_setting,
}
use secure_desk.Config
use secure_desk.Cli.Handle.{Machine, Env}
use secure_desk.App.Startup.{AppState}
use secure_desk.App.Preferences.{
  Changed, configured, set_p2p_enabled, add_trusted_device, remove_trusted_device, set_setting_bool,
  set_setting_string, set_setting_number,
}

pub data Preference : Type 0 where
  p2p : Bool → Preference
  trust : List ℕ → Option (List ℕ) → Preference
  untrust : List ℕ → Preference
  set_bool : List ℕ → Bool → Preference
  set_string : List ℕ → List ℕ → Preference
  set_number : List ℕ → ℕ → Preference

-- The file can be written, and holds the configuration.
pub record Holds (t : Text) (c : ConnectionConfig) (s : Store) : Type 0 where
  pub can_write : s.writable ≡ true
  pub is_there : load_or_create t s ≡ (ok c, s)

module _ {S : Type 0} (e : Env) where
  -- The command, made at a time
  abbrev pub perform :
      Preference → ℕ → AppState S → Machine → Changed Config.ConfigError (Unit {0}) S
  perform (p2p enabled) now = set_p2p_enabled (record e { now = now }) enabled
  perform (trust id name) now = add_trusted_device (record e { now = now }) id name
  perform (untrust id) now = remove_trusted_device (record e { now = now }) id
  perform (set_bool key value) now = set_setting_bool (record e { now = now }) key value
  perform (set_string key value) now = set_setting_string (record e { now = now }) key value
  perform (set_number key value) now = set_setting_number (record e { now = now }) key value

  abbrev pub perform_each : List (Preference × ℕ) → AppState S → Machine → AppState S × Machine
  perform_each [] state w = (state, w)
  perform_each ((p, now) ∷ ps) state w =
      let (r, state', w') = perform p now state w in perform_each ps state' w'

  -- What is written after each of the changes is read as it.
  abbrev pub AreRead : List (Preference × ℕ) → AppState S → Machine → Type 0
  AreRead [] state w = Unit {0}
  AreRead ((p, now) ∷ ps) state w =
      let (r, state', w') = perform p now state w in
      IsRead e.serde state'.connection_config × AreRead ps state' w'

  -- What a command leaves
  abbrev Left : Changed Config.ConfigError (Unit {0}) S → Type 0
  Left (r, state, w) = (r ≡ ok tt) × Holds e.serde state.connection_config w.settings

  configured-Left :
      (c : ConnectionConfig) (state : AppState S) (w : Machine)
      → IsRead e.serde c
      → w.settings.writable ≡ true
      → Left (configured ((save e.serde c w.settings).0, c, (save e.serde c w.settings).1) state w)
  unfolding save load_or_create
  configured-Left c state w is_read can_write =
      rw can_write (refl, record { can_write = refl; is_there = rw (is_read) refl })

  perform-Left :
      (p : Preference) (now : ℕ) (state : AppState S) (w : Machine)
      → IsRead e.serde (perform p now state w).1.connection_config
      → w.settings.writable ≡ true
      → Left (perform p now state w)
  unfolding set_p2p_enabled add_trusted_device remove_trusted_device set_setting_bool
      set_setting_string set_setting_number Config.set_p2p_enabled Config.add_trusted_device
      Config.remove_trusted_device update_setting
  perform-Left (p2p enabled) now state w is_read h = configured-Left _ state w is_read h
  perform-Left (trust id name) now state w is_read h = configured-Left _ state w is_read h
  perform-Left (untrust id) now state w is_read h = configured-Left _ state w is_read h
  perform-Left (set_bool key value) now state w is_read h = configured-Left _ state w is_read h
  perform-Left (set_string key value) now state w is_read h = configured-Left _ state w is_read h
  perform-Left (set_number key value) now state w is_read h = configured-Left _ state w is_read h

  -- Where the file of the settings can be written and holds those in memory, it does so after any sequence of changes to
  -- them and to the trusted devices, at any times, each of which leaves a configuration that is read as it is written: the
  -- next start reads exactly the configuration that the program had.
  pub perform_each-Holds :
      (ps : List (Preference × ℕ)) (state : AppState S) (w : Machine)
      → AreRead ps state w
      → Holds e.serde state.connection_config w.settings
      → let (state', w') = perform_each ps state w in
        Holds e.serde state'.connection_config w'.settings
  perform_each-Holds [] state w is_read h = h
  perform_each-Holds ((p, now) ∷ ps) state w is_read h =
      perform_each-Holds ps _ _ is_read.1 (perform-Left p now state w is_read.0 h.can_write).1
