-- ===== src/App/Startup/Saved.antt =====
-- app/src-tauri/src/main.rs: what the next start of the program has of the changes to the single sign-on.
use secure_desk.Base.{
  arith, subst, ℕ, ◌≡◌, refl, sym, ap, Bool, true, false, Option, none, some, List, if◌then◌else◌,
}
use secure_desk.Base.Outcome.{Outcome, ok, err, panic}
use secure_desk.Identity.{Identity, Error}
use secure_desk.Identity.Stored
use secure_desk.Session.{Noise, Run}
use secure_desk.Transport.{Wire}
use secure_desk.Host
use secure_desk.Host.{Host}
use secure_desk.Cli.Listen.{run_headless_listen}
use secure_desk.Cli.{Cli}
use secure_desk.Cli.Handle.{Machine, Env, handle_cli}
use secure_desk.Sso.{
  SsoError, io, OidcProvider, SsoConfig, Store, Text, load, save, add_provider, remove_provider,
  set_require_sso, set_allowed_domains, clear_session,
}
use secure_desk.Sso.Info.{OidcDiscovery}
use secure_desk.Sso.Login.{Http}
use secure_desk.App.Login.{
  SsoProviderConfig, LoginError, sso_error, Answered, answer, on_ok, provider_of, add_sso_provider,
  remove_sso_provider, set_sso_required, set_sso_allowed_domains, sso_logout,
}
use secure_desk.App.Startup.{
  Started, exits, listens, panics, window, expected, loaded_or_default, opened, open_window, ended,
  listen, main,
}

pub data Change : Type 0 where
  add : SsoProviderConfig → Change
  remove : List ℕ → Change
  require_login : Bool → Change
  allow : List (List ℕ) → Change
  log_out : Change

abbrev pub change :
    Text → Http → (List ℕ → Option OidcDiscovery) → Change → SsoConfig → Store → Answered (Unit {0})
change t http discover (add config) = add_sso_provider t http discover config
change t http discover (remove name) = remove_sso_provider t http name
change t http discover (require_login required) = set_sso_required t http required
change t http discover (allow domains) = set_sso_allowed_domains t http domains
change t http discover log_out = sso_logout t http

-- The file could not be written.
abbrev pub is_io : LoginError → Bool
is_io (sso_error io) = true
is_io e = false

-- The configuration in memory where the command succeeds; where its file could not be written, what is read from what
-- that write left, and where it was refused before, what is read from the file as it was
abbrev pub kept : Text → Store → Answered (Unit {0}) → SsoConfig
kept t s (ok u, c', s') = c'
kept t s (err e, c', s') =
    loaded_or_default (load t (if is_io e then record s { file = s.left } else s))
kept t s (panic, c', s') = loaded_or_default (load t s)

abbrev pub with_sso : {S : Type 0} → SsoConfig → Started S × Machine → Started S × Machine
with_sso c (exits code, w) = (exits code, w)
with_sso c (listens r, w) = (listens r, w)
with_sso c (panics, w) = (panics, w)
with_sso c (window state, w) = (window (record state { sso_manager = c }), w)

listen-with_sso :
    {S : Type 0} (c : SsoConfig) (r : Option (Run (Host S) (Unit {0}))) (w : Machine)
    → (ended r, w) ≡ with_sso c (ended r, w)
listen-with_sso c none w = refl
listen-with_sso c (some r) w = refl

-- What is written for a configuration is read as it.
abbrev pub IsRead : Text → SsoConfig → Type 0
IsRead t c = t.from_str (t.to_string_pretty c) ≡ some c

-- What is read from the file of an answer is what is kept.
abbrev IsKept : Text → Store → Answered (Unit {0}) → Type 0
IsKept t s r = loaded_or_default (load t r.2) ≡ kept t s r

answer-config :
    (r : Outcome SsoError (Unit {0})) (c : SsoConfig) (s : Store)
    → (answer (λ d u. u) (r, c, s)).1 ≡ c
answer-config (ok u) c s = refl
answer-config (err e) c s = refl
answer-config panic c s = refl

-- The commands refuse a provider without having written.
provider_of-refuses :
    (discover : List ℕ → Option OidcDiscovery) (config : SsoProviderConfig) (e : LoginError)
    → provider_of discover config ≡ err e
    → is_io e ≡ false
unfolding provider_of
provider_of-refuses discover config e h = ground arith

module _ (t : Text) (http : Http) where
  saved-IsKept :
      (c' : SsoConfig) (s : Store)
      → IsRead t (answer (λ d u. u) ((save t c' s).0, c', (save t c' s).1)).1
      → IsKept t s (answer (λ d u. u) ((save t c' s).0, c', (save t c' s).1))
  unfolding load save
  saved-IsKept c' s is_read = by_writable s.writable refl
    where
      by_writable :
          (w : Bool)
          → s.writable ≡ w
          → IsKept t s (answer (λ d u. u) ((save t c' s).0, c', (save t c' s).1))
      by_writable true e =
          rw (e, subst (IsRead t) (answer-config (save t c' s).0 c' (save t c' s).1) is_read) refl
      by_writable false e = rw e refl

  change-IsKept :
      (discover : List ℕ → Option OidcDiscovery) (x : Change) (c : SsoConfig) (s : Store)
      → IsRead t (change t http discover x c s).1
      → IsKept t s (change t http discover x c s)
  unfolding add_sso_provider remove_sso_provider set_sso_required set_sso_allowed_domains sso_logout
      add_provider remove_provider set_require_sso set_allowed_domains clear_session
  change-IsKept discover (add config) c s is_read =
      by_provider (provider_of discover config) refl is_read
    where
      by_provider :
          (p : Outcome LoginError OidcProvider)
          → provider_of discover config ≡ p
          → IsRead t (on_ok p (λ q. answer (λ d u. u) (add_provider t q c s)) c s).1
          → IsKept t s (on_ok p (λ q. answer (λ d u. u) (add_provider t q c s)) c s)
      by_provider (ok q) h r = saved-IsKept _ s r
      by_provider (err e) h r =
          ap (λ b. loaded_or_default (load t (if b then record s { file = s.left } else s)))
            (sym (provider_of-refuses discover config e h))
      by_provider panic h r = refl
  change-IsKept discover (remove name) c s is_read = saved-IsKept _ s is_read
  change-IsKept discover (require_login required) c s is_read = saved-IsKept _ s is_read
  change-IsKept discover (allow domains) c s is_read = saved-IsKept _ s is_read
  change-IsKept discover log_out c s is_read = saved-IsKept _ s is_read

  module _ {N S : Type 0} (n : Noise N S) (e : Env) (dial : List ℕ → Option Wire)
      (rounds : List Host.Env) (cli : Cli) where
    window-loaded :
        (c : SsoConfig) (s s' : Store) (w : Machine)
        → loaded_or_default (load t s') ≡ c
        → open_window n e t cli s' w ≡ with_sso c (open_window n e t cli s w)
    window-loaded c s s' w h = by_identity (Stored.load_or_create e.keys e.fresh w.identity).0
      where
        w' : Machine
        w' = record w { identity = (Stored.load_or_create e.keys e.fresh w.identity).1 }

        by_identity :
            (got : Outcome Error Identity)
            → expected got (opened n e t cli s' w') w'
              ≡ with_sso c (expected got (opened n e t cli s w') w')
        by_identity (ok identity) = ap (λ o. with_sso o (opened n e t cli s w' identity)) h
        by_identity (err x) = refl
        by_identity panic = refl

    main-loaded :
        (c : SsoConfig) (s s' : Store) (w : Machine)
        → loaded_or_default (load t s') ≡ c
        → main n e t dial rounds cli s' w ≡ with_sso c (main n e t dial rounds cli s w)
    unfolding main
    main-loaded c s s' w h = by_code (handle_cli e cli w).0 cli.listen
      where
        w' : Machine
        w' = (handle_cli e cli w).2

        by_code :
            (code : Option ℕ) (listening : Bool)
            → elim code [
              | some x ↦ (exits x, w')
              | none ↦
                  if listening then listen n e t dial rounds cli w' else open_window n e t cli s' w'
            ]
              ≡ with_sso c (elim code [
                | some x ↦ (exits x, w')
                | none ↦
                    if listening
                    then listen n e t dial rounds cli w'
                    else open_window n e t cli s w'
              ])
        by_code (some x) listening = refl
        by_code none true =
            listen-with_sso c
              (run_headless_listen n e.keys e.fresh dial cli.relay w'.identity rounds) _
        by_code none false = window-loaded c s s' w' h

    -- Where the configuration that a command for the single sign-on leaves in memory is read as it is written, the next
    -- start of the program is the start that there was before the command, whatever the file held then, but for the
    -- configuration of the single sign-on that a window has: it is the one in memory if the command succeeded; if the
    -- file could not be written, it is what is read from what that write left of the file, and if the command was
    -- refused before, what is read from the file as it was. What cannot be read is the default configuration.
    pub main-change :
        (discover : List ℕ → Option OidcDiscovery) (x : Change) (c : SsoConfig) (s : Store)
        (w : Machine)
        → IsRead t (change t http discover x c s).1
        → main n e t dial rounds cli (change t http discover x c s).2 w
          ≡ with_sso (kept t s (change t http discover x c s)) (main n e t dial rounds cli s w)
    main-change discover x c s w is_read =
        main-loaded _ s _ w (change-IsKept discover x c s is_read)
