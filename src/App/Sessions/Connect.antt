-- ===== src/App/Sessions/Connect.antt =====
-- app/src-tauri/src/main.rs: `connect_to_remote`, which tries the relays in their order.
use secure_desk.Base.{ℕ, true, Option, List, [], ◌∷◌}
use secure_desk.Base.Outcome.{Outcome, ok, err, panic}
use secure_desk.Session.{Error, done, failed, panicked, Noise, Link}
use secure_desk.Client.{Client}
use secure_desk.Client.Connect.{Network, connect_with_p2p}
use secure_desk.App.Sessions.{
  CommandError, no_relay_servers, relay_failed, Command, refused, crashed, add_session,
}

module _ {N S : Type 0} (n : Noise N S) where
  -- `reach` is the connection to a relay, up to TLS, and `connect` the one to the remote device.
  unfoldable pub dial :
      (List ℕ → Outcome Error (Link S))
      → Network
      → List ℕ
      → List ℕ
      → List ℕ
      → Outcome Error (Client S)
  unfolding connect_with_p2p
  dial reach net my_id remote_id relay = elim (reach relay) [
    | err e ↦ err e
    | panic ↦ panic
    | ok l ↦ elim (connect_with_p2p n net my_id remote_id true l) [
      | done client l' ↦ ok client
      | failed e l' ↦ err e
      | panicked ↦ panic
    ]
  ]

-- The relays in their order, until one connects; `last` is the error of the one before.
unfoldable pub connect_loop :
    {S : Type 0}
    → (List ℕ → Outcome Error (Client S))
    → List ℕ
    → Option (List ℕ)
    → ℕ
    → List (List ℕ)
    → CommandError
    → Command (List ℕ) S
unfolding add_session
connect_loop dials remote_id remote_name now [] last s = refused last s
connect_loop dials remote_id remote_name now (relay ∷ relays) last s = elim (dials relay) [
  | ok client ↦ add_session client remote_id remote_name now s
  | err e ↦ connect_loop dials remote_id remote_name now relays (relay_failed relay e) s
  | panic ↦ crashed
]

unfoldable pub connect_to_remote :
    {S : Type 0}
    → (List ℕ → Outcome Error (Client S))
    → List (List ℕ)
    → List ℕ
    → Option (List ℕ)
    → ℕ
    → Command (List ℕ) S
unfolding connect_loop
connect_to_remote dials relays remote_id remote_name now =
    connect_loop dials remote_id remote_name now relays no_relay_servers
