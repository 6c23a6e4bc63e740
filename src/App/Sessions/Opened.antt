-- ===== src/App/Sessions/Opened.antt =====
-- app/src-tauri/src/main.rs: which relay `connect_to_remote` takes, and the session that it adds.
use secure_desk.Base.{
  ℕ, ◌<◌, ◌+◌, ◌^◌, ◌≡◌, refl, Option, none, some, List, [], ◌∷◌, ◌++◌, All, if◌then◌else◌,
}
use secure_desk.Base.Outcome.{Outcome, ok, err, panic}
use secure_desk.Base.Text.{text_eq}
use secure_desk.Session.{Error}
use secure_desk.Client.{Client}
use secure_desk.Base.Assoc.{find, find-insert}
use secure_desk.App.Sessions.{
  Sessions, CommandError, no_relay_servers, relay_failed, replied, refused, crashed, session_id_of,
  unwrap_or_text, add_session,
}
use secure_desk.App.Sessions.Connect.{connect_loop, connect_to_remote}
use secure_desk.App.Sessions.Invariant.{Consistent, fresh, AfterReply, add_session-Consistent}

module _ {S : Type 0} (dials : List ℕ → Outcome Error (Client S)) where
  -- The relay reports an error.
  abbrev pub IsDown : List ℕ → Type 0
  IsDown relay = (e : Error) × (dials relay ≡ err e)

  module _ (remote_id : List ℕ) (remote_name : Option (List ℕ)) (now : ℕ) where
    connect_loop_first :
        (before after : List (List ℕ)) (relay : List ℕ) (client : Client S) (last : CommandError)
        (s : Sessions S)
        → All IsDown before
        → dials relay ≡ ok client
        → connect_loop dials remote_id remote_name now (before ++ (relay ∷ after)) last s
          ≡ add_session client remote_id remote_name now s
    unfolding connect_loop
    connect_loop_first [] after relay client last s down e = rw e refl
    connect_loop_first (r ∷ rs) after relay client last s down e =
        rw down.0.1 (connect_loop_first rs after relay client (relay_failed r down.0.0) s down.1 e)

    connect_loop-Consistent :
        (relays : List (List ℕ)) (last : CommandError) (s : Sessions S)
        → s.session_counter + 1 < 2 ^ 64
        → Consistent s
        → AfterReply Consistent (connect_loop dials remote_id remote_name now relays last s)
    unfolding connect_loop
    connect_loop-Consistent [] last s bound h = tt
    connect_loop-Consistent (relay ∷ relays) last s bound h =
        elim (dials relay)
          as (λ o. AfterReply Consistent (elim o [
            | ok client ↦ add_session client remote_id remote_name now s
            | err e ↦ connect_loop dials remote_id remote_name now relays (relay_failed relay e) s
            | panic ↦ crashed
          ])) [
            | ok client ↦ add_session-Consistent client remote_id remote_name now s bound h
            | err e ↦ connect_loop-Consistent relays (relay_failed relay e) s bound h
            | panic ↦ tt
          ]

    pub connect_to_remote-Consistent :
        (relays : List (List ℕ)) (s : Sessions S)
        → s.session_counter + 1 < 2 ^ 64
        → Consistent s
        → AfterReply Consistent (connect_to_remote dials relays remote_id remote_name now s)
    unfolding connect_to_remote connect_loop
    connect_to_remote-Consistent relays s = connect_loop-Consistent relays no_relay_servers s

    -- In a consistent state whose counter is not at its end, and with relays that all report an error
    -- before one that connects, the command replies with a session id that no session had; afterwards the
    -- map has the new session under this id and every other session where it was, and the new session is
    -- the active one.
    pub connect_to_remote_opens :
        (before after : List (List ℕ)) (relay : List ℕ) (client : Client S) (s : Sessions S)
        → s.session_counter + 1 < 2 ^ 64
        → Consistent s
        → All IsDown before
        → dials relay ≡ ok client
        → (id : List ℕ) × (t : Sessions S) × (connect_to_remote dials
              (before ++ (relay ∷ after))
              remote_id
              remote_name
              now
              s
            ≡ replied id t)
          × (find id s.client_sessions ≡ none)
          × (t.active_session_id ≡ some id)
          × ((k : List ℕ)
              → find k t.client_sessions ≡ (
                  if text_eq k id
                  then some (record {
                    session = client;
                    remote_id = remote_id;
                    remote_name = unwrap_or_text remote_name remote_id;
                    connected_at = now;
                  })
                  else find k s.client_sessions))
    unfolding connect_to_remote add_session
    connect_to_remote_opens before after relay client s bound h down e = (
      session_id_of s.session_counter,
      _,
      connect_loop_first before after relay client no_relay_servers s down e,
      fresh s h,
      refl,
      λ k. find-insert (session_id_of s.session_counter) k _ s.client_sessions,
    )

    -- Where every relay reports an error the command fails and changes nothing; its error is the last
    -- relay's.
    pub connect_to_remote_down :
        (before : List (List ℕ)) (relay : List ℕ) (e : Error) (s : Sessions S)
        → All IsDown before
        → dials relay ≡ err e
        → connect_to_remote dials (before ++ (relay ∷ [])) remote_id remote_name now s
          ≡ refused (relay_failed relay e) s
    unfolding connect_to_remote connect_loop
    connect_to_remote_down before relay e s down k = loop before no_relay_servers down
      where
        loop :
            (rs : List (List ℕ)) (last : CommandError)
            → All IsDown rs
            → connect_loop dials remote_id remote_name now (rs ++ (relay ∷ [])) last s
              ≡ refused (relay_failed relay e) s
        loop [] last d = rw k refl
        loop (r ∷ rs) last d = rw d.0.1 (loop rs (relay_failed r d.0.0) d.1)
