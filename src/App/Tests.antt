-- ===== src/App/Tests.antt =====
-- Runs of the commands of app/src-tauri/src/main.rs, and their theorems.
use secure_desk.Base.{
  ℕ, ◌≡◌, refl, true, false, Option, none, some, List, [], ◌∷◌, All, if◌then◌else◌, arith,
}
use secure_desk.Base.Text.{text_eq, text_eq_refl}
use secure_desk.Base.Outcome.{Outcome, ok, err}
use secure_desk.Protocol.{control_frame}
use secure_desk.Protocol.Control as Msg
use secure_desk.Session.{Error, not_connected, write_frame}
use secure_desk.Session.Links.{plain}
use secure_desk.Host.{on_link}
use secure_desk.Host.Control.{respond}
use secure_desk.Client.{Client}
use secure_desk.Client.Tests.{toy, wire, host, client, env}
use secure_desk.App.Approval.{
  no_pending_connection, end_dialog, respond_to_connection, free, dialog, Shared, start, lock_loop,
  lock_command, unlock, connect, ask, decide, answer, ◌⟶*◌, here, after,
}
use secure_desk.App.Approval.Refused.{
  IsRefusal, IsUnheard, ⟶*-IsUnheard, dialog-⟶*, respond-refused,
}
use secure_desk.Base.Assoc.{find}
use secure_desk.App.Sessions.{SessionMap, ClientSessionEntry, Sessions, replied, session_id_of}
use secure_desk.App.Sessions.Connect.{connect_to_remote}
use secure_desk.App.Sessions.Opened.{connect_to_remote_opens}
use secure_desk.App.Sessions.Invariant.{IsFirstKey, IsIn, IsIssued}
use secure_desk.App.Sessions.Reachable.{no_sessions, no_sessions-⟶*, no_sessions-Consistent}
use secure_desk.App.Sessions.Reachable as Reachable

-- A host that asks about the device 7, and the command that accepts it.
abbrev remote : List ℕ
remote = b'7' ∷ []

abbrev asking : Shared
asking = record start { holder = dialog remote; host_session = some (some remote) }

asked : start ⟶* asking
asked =
    after (connect start refl) (after (lock_loop _ refl) (after (ask remote none _ refl refl) here))

⟶*-IsUnheard_example : All IsRefusal (false ∷ []) × All IsUnheard (no_pending_connection ∷ [])
unfolding end_dialog respond_to_connection
⟶*-IsUnheard_example = ⟶*-IsUnheard _ (
    after (connect start refl) (
      after (lock_loop _ refl) (
        after (ask remote none _ refl refl) (
          after (decide remote _ refl) (
            after (unlock _ refl)
              (after (lock_command true _ refl) (after (answer true _ refl) here)))))))

respond-refused_example :
    respond toy (record env { answer = none }) remote host
    ≡ on_link (write_frame toy (control_frame Msg.session_end (0x00 ∷ []))) host
respond-refused_example =
    respond-refused toy asking (record env { answer = none }) remote host asked refl

dialog-⟶*_example :
    (t : Shared) × (asking ⟶* t)
    × (t.holder ≡ free)
    × (t.host_session ≡ some none)
    × (t.decisions ≡ false ∷ [])
dialog-⟶*_example = dialog-⟶* asking remote asked refl

abbrev relay_up : List ℕ
relay_up = b'a' ∷ []

abbrev relay_down : List ℕ
relay_down = b'b' ∷ []

abbrev dials : List ℕ → Outcome Error (Client ℕ)
dials relay = if text_eq relay relay_up then ok client else err not_connected

connect_to_remote_opens_example :
    (id : List ℕ) × (t : Sessions ℕ) × (connect_to_remote dials
        (relay_down ∷ relay_up ∷ [])
        remote
        none
        5
        no_sessions
      ≡ replied id t)
    × (find {V = ClientSessionEntry ℕ} id [] ≡ none)
    × (t.active_session_id ≡ some id)
    × ((k : List ℕ)
        → find k t.client_sessions ≡ (
            if text_eq k id
            then some (record {
              session = client;
              remote_id = remote;
              remote_name = remote;
              connected_at = 5;
            })
            else find k []))
connect_to_remote_opens_example =
    connect_to_remote_opens dials remote none 5 (relay_down ∷ []) [] relay_up client no_sessions
      (omega arith) no_sessions-Consistent ((not_connected, refl), tt) refl

-- A session, and one whose stream can no longer be written.
abbrev entry : ClientSessionEntry ℕ
entry = record { session = client; remote_id = remote; remote_name = remote; connected_at = 5 }

abbrev broken : ClientSessionEntry ℕ
broken = record entry {
  session = record client { link = plain (record wire { writable = false }) };
}

abbrev sessions : Sessions ℕ
sessions = record {
  client_sessions = (relay_up, entry) ∷ (relay_down, broken) ∷ [];
  active_session_id = some relay_down;
  session_counter = 2;
}

abbrev first_key : SessionMap ℕ → Option (List ℕ)
first_key [] = none
first_key (p ∷ ps) = some p.0

-- The first key of the toy map is one of its keys.
first_key-IsFirstKey : IsFirstKey first_key
unfolding find
first_key-IsFirstKey [] = ((λ id e. absurd (ground (arith, e))), λ e. refl)
first_key-IsFirstKey (p ∷ ps) =
    ((λ id e. (p.1, ground (arith, e, text_eq_refl id))), λ e. absurd (ground (arith, e)))

abbrev opened : Sessions ℕ
opened = record {
  client_sessions = (session_id_of 0, entry) ∷ [];
  active_session_id = some (session_id_of 0);
  session_counter = 1;
}

no_sessions-⟶*_example :
    ((id : List ℕ) → some (session_id_of 0) ≡ some id → IsIn opened.client_sessions id)
    × ((id : List ℕ) → IsIn opened.client_sessions id → IsIssued 1 id)
unfolding connect_to_remote session_id_of
no_sessions-⟶*_example = no_sessions-⟶* toy first_key first_key-IsFirstKey opened (
    Reachable.after
      (Reachable.connect dials (relay_up ∷ []) remote none 5 (session_id_of 0) no_sessions opened
        (omega arith) refl)
      Reachable.here)
