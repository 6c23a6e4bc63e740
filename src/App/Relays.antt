-- ===== src/App/Relays.antt =====
-- app/src-tauri/src/main.rs: the addresses of relays, `start_host_listener` and the task that it spawns. `start` is
-- HostSession::start at an address; each iteration of the task comes with what the host meets and with the relays as
-- they answer then.
pub mod Addresses
pub mod Failover
use secure_desk.Base.{
  ℕ, ◌+◌, Bool, true, Option, none, some, List, [], ◌∷◌, is_empty, if◌then◌else◌,
}
use secure_desk.Base.Text.{ascii}
use secure_desk.License.Manager.{trim_start, trim_end}
use secure_desk.Sso.Url.{split_on}
use secure_desk.Session.{Noise, done, failed, panicked}
use secure_desk.Host.{Host, Env}
use secure_desk.Host.Loop.{run_once}

abbrev pub relay_servers : List (List ℕ)
relay_servers = ascii "relay.securedesk.one:8443" ∷ ascii "relay2.securedesk.one:8443" ∷ []

-- `trim`, for ASCII white space
abbrev pub trim : List ℕ → List ℕ
trim text = trim_end (trim_start text)

abbrev pub trimmed : List (List ℕ) → List (List ℕ)
trimmed [] = []
trimmed (part ∷ parts) = trim part ∷ trimmed parts

abbrev pub without_empty : List (List ℕ) → List (List ℕ)
without_empty [] = []
without_empty (part ∷ parts) =
    let rest = without_empty parts in if is_empty part then rest else part ∷ rest

unfoldable pub addresses_of : List ℕ → List (List ℕ)
unfolding split_on
addresses_of address = without_empty (trimmed (split_on b',' address))

-- The addresses that the program starts with; the empty ones of the argument stay.
unfoldable pub first_addresses : Option (List ℕ) → List (List ℕ)
unfolding split_on
first_addresses none = relay_servers
first_addresses (some relay) = trimmed (split_on b',' relay)

-- The part of AppState that the listener uses, and how many tasks were spawned
pub record Listener (S : Type 0) : Type 0 where
  pub relay_addresses : List (List ℕ)
  pub host_session : Option (Host S)
  pub tasks : ℕ

pub data ListenError : Type 0 where
  no_relay_servers : ListenError
  relay_failed : List ℕ → ListenError

unfoldable pub set_relay_address : {S : Type 0} → List ℕ → Listener S → Listener S
unfolding addresses_of
set_relay_address address l = record l { relay_addresses = addresses_of address }

-- The error, or that a task was spawned
pub data Listened : Type 0 where
  listening : Listened
  not_listening : ListenError → Listened

module _ {S : Type 0} (start : List ℕ → Option (Host S)) where
  abbrev pub listen_loop : ListenError → List (List ℕ) → Listener S → Listened × Listener S
  listen_loop last_error [] l = (not_listening last_error, l)
  listen_loop last_error (relay ∷ relays) l = elim (start relay) [
    | some session ↦ (listening, record l { host_session = some session; tasks = l.tasks + 1 })
    | none ↦ listen_loop (relay_failed relay) relays l
  ]

  unfoldable pub start_host_listener : Listener S → Listened × Listener S
  start_host_listener l = listen_loop no_relay_servers l.relay_addresses l

  -- The loop of the reconnection
  unfoldable pub reconnect : List (List ℕ) → Option (Host S)
  reconnect [] = none
  reconnect (relay ∷ relays) = elim (start relay) [
    | some session ↦ some session
    | none ↦ reconnect relays
  ]

module _ {N S : Type 0} (n : Noise N S) where
  -- A round of the task; `none` is the end of the program by a panic.
  unfoldable pub task_step : Env → (List ℕ → Option (Host S)) → Listener S → Option (Listener S)
  unfolding run_once reconnect
  task_step env start l = elim l.host_session [
    | none ↦ some l
    | some session ↦ elim (run_once n (record env { app_handle = true }) session) [
      | done u session' ↦ some (record l { host_session = some session' })
      | failed e session' ↦ some (record l { host_session = reconnect start l.relay_addresses })
      | panicked ↦ none
    ]
  ]

  unfoldable pub task : List (Env × (List ℕ → Option (Host S))) → Listener S → Option (Listener S)
  unfolding task_step
  task [] l = some l
  task ((env, start) ∷ rounds) l = elim (task_step env start l) [
    | none ↦ none
    | some l' ↦ task rounds l'
  ]
