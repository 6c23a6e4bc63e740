-- ===== src/Cli/Listen.antt =====
-- app/src-tauri/src/cli.rs: `run_headless_listen`, once the identity is read and the stream to the relay stands. Each
-- `Env` is what an iteration meets; an error of an iteration is printed and the loop goes on.
use secure_desk.Base.{ℕ, ◌≡◌, refl, ap, ◌∙◌, Bool, true, false, Option, none, some, List, [], ◌∷◌}
use secure_desk.Base.Outcome.{ok, err, panic}
use secure_desk.Base.Text.{ascii}
use secure_desk.Identity.{Keys, Identity, device_id_raw}
use secure_desk.Identity.Stored
use secure_desk.Transport.{Wire, read_exact, unexpected_eof}
use secure_desk.Session.{
  Run, Act, done, failed, panicked, Noise, Error, io, session_stopped, read_frame, read_bytes,
}
use secure_desk.Host.{Host, Env}
use secure_desk.Host.Loop.{run_once}
use secure_desk.Host.Start.{start_with_p2p}

abbrev pub default_relay : List ℕ
default_relay = ascii "relay.securedesk.one:8443"

abbrev pub relay_of : Option (List ℕ) → List ℕ
relay_of none = default_relay
relay_of (some address) = address

-- A host whose stream has ended
abbrev pub dead : {S : Type 0} → Host S → Wire → Host S
dead h w = record h { link = record h.link { stream = some (record w { incoming = [] }) } }

module _ {N S : Type 0} (n : Noise N S) where
  -- A host without a window; five seconds pass after an error.
  unfoldable pub listen_loop : List Env → Act (Host S) (Unit {0})
  unfolding run_once
  listen_loop [] h = done tt h
  listen_loop (env ∷ envs) h = elim (run_once n (record env { app_handle = false }) h) [
    | done u h' ↦ listen_loop envs h'
    | failed e h' ↦ listen_loop envs h'
    | panicked ↦ panicked
  ]

  -- `dial` is the connection with an address, with TLS; `none` is an error that ends the program.
  unfoldable pub run_headless_listen :
      Keys
      → Identity
      → (List ℕ → Option Wire)
      → Option (List ℕ)
      → Stored.Store
      → List Env
      → Option (Run (Host S) (Unit {0}))
  unfolding Stored.load_or_create start_with_p2p listen_loop device_id_raw
  run_headless_listen keys fresh dial relay_address s envs =
      elim (Stored.load_or_create keys fresh s).0 [
        | err e ↦ none
        | panic ↦ none
        | ok identity ↦ elim (dial (relay_of relay_address)) [
          | none ↦ none
          | some w ↦
              elim (start_with_p2p n identity.x25519_secret (device_id_raw keys identity) true
                (record { stream = some w; channel = none })) [
                  | done h l ↦ some (listen_loop envs h)
                  | failed e l ↦ none
                  | panicked ↦ some panicked
                ]
        ]
      ]

  run_once-dead :
      (env : Env) (h : Host S) (w : Wire) (running : Bool)
      → let closed = dead (record h { running = running }) w in
        (e : Error) × (run_once n env closed ≡ failed e closed)
  unfolding run_once read_frame read_bytes read_exact
  run_once-dead env h w true = (io unexpected_eof, refl)
  run_once-dead env h w false = (session_stopped, refl)

  go_on : List Env → Run (Host S) (Unit {0}) → Run (Host S) (Unit {0})
  go_on envs r = elim r [
    | done u h ↦ listen_loop envs h
    | failed e h ↦ listen_loop envs h
    | panicked ↦ panicked
  ]

  -- Once the stream to the relay has ended, the loop of the headless mode neither ends nor connects again: it goes
  -- through any further iterations, and the host stays as it is.
  pub listen_loop-dead :
      (envs : List Env) (h : Host S) (w : Wire) → listen_loop envs (dead h w) ≡ done tt (dead h w)
  unfolding listen_loop go_on
  listen_loop-dead [] h w = refl
  listen_loop-dead (env ∷ envs) h w =
      let (e, once) = run_once-dead (record env { app_handle = false }) h w h.running in
      ap (go_on envs) once ∙ listen_loop-dead envs h w
