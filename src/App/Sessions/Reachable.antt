-- ===== src/App/Sessions/Reachable.antt =====
-- app/src-tauri/src/main.rs: the states that the commands on sessions reach.
use secure_desk.Base.{ℕ, ◌<◌, ◌+◌, ◌^◌, ◌≡◌, subst, Option, none, some, List, [], arith}
use secure_desk.Base.Outcome.{Outcome}
use secure_desk.Session.{Error, Noise}
use secure_desk.Client.{Client}
use secure_desk.Base.Assoc.{find}
use secure_desk.App.Sessions.{
  SessionMap, Sessions, replied, set_active_session, disconnect_session, disconnect_all_sessions,
}
use secure_desk.App.Sessions.Connect.{connect_to_remote}
use secure_desk.App.Commands.{set_session}
use secure_desk.App.Sessions.Invariant.{
  IsIn, IsIssued, IsFirstKey, Consistent, AfterReply, set_active_session-Consistent,
  disconnect_session-Consistent, changed-Consistent,
}
use secure_desk.App.Sessions.Opened.{connect_to_remote-Consistent}
use secure_desk.App.Sessions.Closed.{disconnect_all_sessions-none}

-- A fresh application
abbrev pub no_sessions : {S : Type 0} → Sessions S
no_sessions = record { client_sessions = []; active_session_id = none; session_counter = 0 }

pub no_sessions-Consistent : {S : Type 0} → Consistent {S = S} no_sessions
unfolding find
no_sessions-Consistent = record {
  issued = λ id found. absurd (ground (arith, found.1));
  active = λ id e. absurd (ground (arith, e));
}

module _ {N S : Type 0} (n : Noise N S) (first_key : SessionMap S → Option (List ℕ)) where
  infix 40 ◌⟶◌ ◌⟶*◌
  -- A command that replies, and a session that its command changes.
  pub data ◌⟶◌ : Sessions S → Sessions S → Type 0 where
    connect :
        (dials : List ℕ → Outcome Error (Client S)) (relays : List (List ℕ)) (remote_id : List ℕ)
        (remote_name : Option (List ℕ)) (now : ℕ) (id : List ℕ) (s t : Sessions S)
        → s.session_counter + 1 < 2 ^ 64
        → connect_to_remote dials relays remote_id remote_name now s ≡ replied id t
        → s ⟶ t
    choose : (id : List ℕ) (s t : Sessions S) → set_active_session id s ≡ replied tt t → s ⟶ t
    change :
        (id : List ℕ) (client : Client S) (s : Sessions S)
        → s ⟶ record s { client_sessions = set_session id client s.client_sessions }
    close_one :
        (id : Option (List ℕ)) (s t : Sessions S)
        → disconnect_session n first_key id s ≡ replied tt t
        → s ⟶ t
    close_all : (s t : Sessions S) → disconnect_all_sessions n s ≡ replied tt t → s ⟶ t

  pub data ◌⟶*◌ : Sessions S → Sessions S → Type 0 where
    here : {s : Sessions S} → s ⟶* s
    after : {s t u : Sessions S} → s ⟶ t → t ⟶* u → s ⟶* u

  module _ (first : IsFirstKey first_key) where
    ⟶-Consistent : {s t : Sessions S} → s ⟶ t → Consistent s → Consistent t
    ⟶-Consistent (connect dials relays remote_id remote_name now id s t bound e) h =
        subst (AfterReply Consistent) e
          (connect_to_remote-Consistent dials remote_id remote_name now relays s bound h)
    ⟶-Consistent (choose id s t e) h =
        subst (AfterReply Consistent) e (set_active_session-Consistent id s h)
    ⟶-Consistent (change id client s) h = changed-Consistent id client s h
    ⟶-Consistent (close_one id s t e) h =
        subst (AfterReply Consistent) e (disconnect_session-Consistent first_key first n id s h)
    ⟶-Consistent (close_all s t e) h =
        let k = disconnect_all_sessions-none n s t e in
        record {
          issued = λ id found. absurd (ground (arith, k.0 id, found.1));
          active = λ id e'. absurd (ground (arith, k.1, e'));
        }

    ⟶*-Consistent : {s t : Sessions S} → s ⟶* t → Consistent s → Consistent t
    ⟶*-Consistent here h = h
    ⟶*-Consistent (after step steps) h = ⟶*-Consistent steps (⟶-Consistent step h)

    -- In every state that commands which reply lead to from a fresh application, while the counter of
    -- sessions is not at its end, the active session is one that is open, and each open session has a key
    -- that the counter has given out.
    pub no_sessions-⟶* :
        (t : Sessions S)
        → no_sessions ⟶* t
        → ((id : List ℕ) → t.active_session_id ≡ some id → IsIn t.client_sessions id)
          × ((id : List ℕ) → IsIn t.client_sessions id → IsIssued t.session_counter id)
    no_sessions-⟶* t steps =
        let h = ⟶*-Consistent steps no_sessions-Consistent in (h.active, h.issued)
