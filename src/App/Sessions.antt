-- ===== src/App/Sessions.antt =====
-- app/src-tauri/src/main.rs: the client sessions of the application, the active one among them, and the
-- commands that open, choose and close them. A command runs to its end before the next one; its errors are
-- values of `CommandError` instead of texts.
pub mod Lookup
pub mod Connect
pub mod Opened
pub mod Invariant
pub mod Closed
pub mod Reachable
use secure_desk.Base.{
  ℕ, ◌+◌, ◌%◌, ◌^◌, Bool, true, false, Option, none, some, List, [], ◌∷◌, ◌++◌, map, length,
  if◌then◌else◌,
}
use secure_desk.Base.Assoc.{Assoc, find, remove, insert}
use secure_desk.Base.Text.{text_eq, decimal}
use secure_desk.Base.Outcome.{Outcome, ok, err, panic}
use secure_desk.Session.{Error, Run, done, failed, panicked, Noise, Link}
use secure_desk.Transport.{ConnectionType}
use secure_desk.Client.{Client, disconnect}
use secure_desk.Client.Connect.{Network, connect_with_p2p}

pub record ClientSessionEntry (S : Type 0) : Type 0 where
  pub session : Client S
  pub remote_id : List ℕ
  pub remote_name : List ℕ
  pub connected_at : ℕ

abbrev pub SessionMap : Type 0 → Type 0
SessionMap S = Assoc (ClientSessionEntry S)

pub record Sessions (S : Type 0) : Type 0 where
  pub client_sessions : SessionMap S
  pub active_session_id : Option (List ℕ)
  pub session_counter : ℕ

pub data CommandError : Type 0 where
  no_relay_servers no_active_session clipboard_is_empty : CommandError
  relay_failed : List ℕ → Error → CommandError
  session_error : Error → CommandError
  session_not_found : List ℕ → CommandError

pub data Reply (A S : Type 0) : Type 0 where
  replied : A → Sessions S → Reply A S
  refused : CommandError → Sessions S → Reply A S
  crashed : Reply A S

abbrev pub Command : Type 0 → Type 0 → Type 0
Command A S = Sessions S → Reply A S

-- "session_"
abbrev session_prefix : List ℕ
session_prefix = b's' ∷ b'e' ∷ b's' ∷ b's' ∷ b'i' ∷ b'o' ∷ b'n' ∷ b'_' ∷ []

-- `format!("session_{}", counter)`
unfoldable pub session_id_of : ℕ → List ℕ
session_id_of counter = session_prefix ++ decimal counter

abbrev pub or_else : Option (List ℕ) → Option (List ℕ) → Option (List ℕ)
or_else none active = active
or_else (some id) active = some id

abbrev pub unwrap_or_text : Option (List ℕ) → List ℕ → List ℕ
unwrap_or_text none d = d
unwrap_or_text (some t) d = t

unfoldable pub add_session :
    {S : Type 0} → Client S → List ℕ → Option (List ℕ) → ℕ → Command (List ℕ) S
unfolding insert session_id_of
add_session client remote_id remote_name now s = replied (session_id_of s.session_counter) (record {
  client_sessions =
      insert (session_id_of s.session_counter)
        (record {
          session = client;
          remote_id = remote_id;
          remote_name = unwrap_or_text remote_name remote_id;
          connected_at = now;
        })
        s.client_sessions;
  active_session_id = some (session_id_of s.session_counter);
  session_counter = (s.session_counter + 1) % 2 ^ 64;
})

unfoldable pub set_active_session : {S : Type 0} → List ℕ → Command (Unit {0}) S
unfolding find
set_active_session id s = elim (find id s.client_sessions) [
  | none ↦ refused (session_not_found id) s
  | some entry ↦ replied tt (record s { active_session_id = some id })
]

unfoldable pub get_session_count : {S : Type 0} → Command ℕ S
get_session_count s = replied (length s.client_sessions) s

pub record SessionInfo : Type 0 where
  pub session_id : List ℕ
  pub remote_id : List ℕ
  pub remote_name : List ℕ
  pub connected_at : ℕ
  pub is_active : Bool
  pub connection_type : ConnectionType

-- `active_id.as_ref() == Some(id)`
abbrev pub is_id : Option (List ℕ) → List ℕ → Bool
is_id none id = false
is_id (some active) id = text_eq active id

unfoldable pub list_sessions : {S : Type 0} → Command (List SessionInfo) S
list_sessions s =
    replied
      (map
        (λ p. record {
          session_id = p.0;
          remote_id = p.1.remote_id;
          remote_name = p.1.remote_name;
          connected_at = p.1.connected_at;
          is_active = is_id s.active_session_id p.0;
          connection_type = p.1.session.connection_type;
        })
        s.client_sessions)
      s

-- A command on the session that is named, or on the active one. What it does where the map has no such
-- session is the command's.
unfoldable pub with_session :
    {A S : Type 0}
    → Option (List ℕ)
    → (List ℕ → Command A S)
    → (List ℕ → ClientSessionEntry S → Command A S)
    → Command A S
unfolding find
with_session id missing run s = elim (or_else id s.active_session_id) [
  | none ↦ refused no_active_session s
  | some target ↦ elim (find target s.client_sessions) [
    | none ↦ missing target s
    | some entry ↦ run target entry s
  ]
]

module _ {N S : Type 0} (n : Noise N S) where
  -- The session is out of the map when it is closed; an error leaves the active one as it was.
  unfoldable pub close :
      (SessionMap S → Option (List ℕ)) → List ℕ → ClientSessionEntry S → Command (Unit {0}) S
  unfolding remove disconnect
  close first_key target entry s =
      let rest = remove target s.client_sessions in
      elim (disconnect n entry.session) [
        | done u c ↦ replied tt (record s {
          client_sessions = rest;
          active_session_id =
              if is_id s.active_session_id target then first_key rest else s.active_session_id;
        })
        | failed e c ↦ refused (session_error e) (record s { client_sessions = rest })
        | panicked ↦ crashed
      ]

  -- `first_key` is the key that the map gives first.
  unfoldable pub disconnect_session :
      (SessionMap S → Option (List ℕ)) → Option (List ℕ) → Command (Unit {0}) S
  unfolding with_session close
  disconnect_session first_key id = with_session id (λ target. replied tt) (close first_key)

module _ {N S : Type 0} (n : Noise N S) where
  -- The keys are those at the start; a session that panics while it closes ends the command.
  unfoldable pub disconnect_each : List (List ℕ) → SessionMap S → Option (SessionMap S)
  unfolding find remove disconnect
  disconnect_each [] sessions = some sessions
  disconnect_each (id ∷ ids) sessions = elim (find id sessions) [
    | none ↦ disconnect_each ids sessions
    | some entry ↦ elim (disconnect n entry.session) [
      | done u c ↦ disconnect_each ids (remove id sessions)
      | failed e c ↦ disconnect_each ids (remove id sessions)
      | panicked ↦ none
    ]
  ]

  unfoldable pub disconnect_all_sessions : Command (Unit {0}) S
  unfolding disconnect_each
  disconnect_all_sessions s =
      elim (disconnect_each (map (λ p. p.0) s.client_sessions) s.client_sessions) [
        | none ↦ crashed
        | some rest ↦ replied tt (record s { client_sessions = rest; active_session_id = none })
      ]
