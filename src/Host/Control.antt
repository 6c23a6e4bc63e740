-- ===== src/Host/Control.antt =====
-- app/src-tauri/src/host.rs: `handle_control_with_events`, a part for each message.
use secure_desk.Base.{
  ℕ, Bool, false, not, ◌&&◌, ◌||◌, Option, none, some, List, [], ◌∷◌, leb, get_elem?, get_or, ◌==◌,
  if◌then◌else◌, length, is_empty, drop,
}
use secure_desk.Base.Outcome.{ok, err, panic}
use secure_desk.Base.Utf8.{from_utf8_lossy}
use secure_desk.Protocol.{channel_code, control, Frame, control_frame}
use secure_desk.Protocol.Control as Msg
use secure_desk.Transport.{relay, p2p}
use secure_desk.Transport.PeerInfo.{P2pInfo, encode, decode}
use secure_desk.P2p.{choose_p2p_port, gather_p2p_info}
use secure_desk.Privacy.{disable_all}
use secure_desk.Session.{
  Act, Run, done, failed, panicked, Noise, Link, ret, fail, modify, ◌>>◌, read_frame, write_frame,
  noise_failed,
}
use secure_desk.Host.{
  Host, Env, Selected, accepted, relay_frame, connection_request, connection_accepted,
  connection_ended, connection_type_p2p, on_link,
}
use secure_desk.Host.Handlers.{emit, u16_at}

-- "Unknown"
abbrev unknown : List ℕ
unknown = b'U' ∷ b'n' ∷ b'k' ∷ b'n' ∷ b'o' ∷ b'w' ∷ b'n' ∷ []

unfoldable pub remote_id_of : List ℕ → List ℕ
remote_id_of rest = if is_empty rest then unknown else from_utf8_lossy rest

-- The bytes of the stream that a read that is given up has taken.
abbrev pub drop_incoming : {S : Type 0} → ℕ → Link S → Link S
drop_incoming count l = elim l.stream [
  | none ↦ l
  | some w ↦ record l { stream = some (record w { incoming = drop count w.incoming }) }
]

-- `unwrap_or(None).unwrap_or(false)`: no answer in time is a refusal.
abbrev pub answered : Option Bool → Bool
answered none = false
answered (some accept) = accept

module _ {N S : Type 0} (n : Noise N S) where
  abbrev pub finish : N → Act (Host S) (Unit {0})
  finish r =
      if n.is_handshake_finished r
      then elim (n.into_transport_mode r) [
        | none ↦ fail noise_failed
        | some s ↦ modify (λ h. record h { link = record h.link { channel = some s } })
      ]
      else ret tt

  -- The responder lives for this one message.
  unfoldable pub handle_handshake : List ℕ → Act (Host S) (Unit {0})
  unfolding write_frame
  handle_handshake message h = elim (n.responder h.private_key) [
    | none ↦ failed noise_failed h
    | some r ↦ elim (n.read_message message r) [
      | none ↦ failed noise_failed h
      | some r' ↦ elim (n.write_message r') [
        | none ↦ failed noise_failed h
        | some p ↦ (do on_link (write_frame n (control_frame Msg.handshake p.0)); finish p.1) h
      ]
    ]
  ]

  -- The user's decision, sent to the client
  unfoldable pub respond : Env → List ℕ → Act (Host S) (Unit {0})
  unfolding write_frame
  respond env remote_id =
      if answered env.answer
      then (do
        on_link (write_frame n (control_frame Msg.session_accept (0x01 ∷ [])))
        emit env (connection_accepted remote_id))
      else on_link (write_frame n (control_frame Msg.session_end (0x00 ∷ [])))

  unfoldable pub handle_session_request : Env → List ℕ → Act (Host S) (Unit {0})
  unfolding respond remote_id_of
  handle_session_request env rest = do
    modify (λ h. record h { pending_connection = some (remote_id_of rest) })
    emit env (connection_request (remote_id_of rest))
    modify (λ h. record h { pending_connection = none })
    respond env (remote_id_of rest)

  unfoldable pub handle_session_end : Env → Act (Host S) (Unit {0})
  unfolding disable_all
  handle_session_end env = do
    modify (λ h. record h { running = false; privacy = disable_all h.privacy })
    emit env connection_ended

  -- The frame that the relay sends while a connection is awaited: its first byte is read without a check
  -- that there is one, unless the first test failed on it.
  abbrev pub relay_frame_read : Run (Host S) Frame → Run (Host S) (Unit {0})
  relay_frame_read panicked = panicked
  relay_frame_read (failed e h) = done tt h
  relay_frame_read (done f h) =
      if (channel_code f.channel == channel_code control)
        && (not (is_empty f.payload) && (get_or f.payload 0 0 == Msg.p2p_failed))
      then done tt h
      else elim (get_elem? f.payload 0) [ none ↦ panicked | some b ↦ done tt h ]

  unfoldable pub await_connection : Env → Selected → Act (Host S) (Unit {0})
  unfolding read_frame
  await_connection env (accepted none lost) =
      modify (λ h. record h { link = drop_incoming lost h.link })
  await_connection env (accepted (some w) lost) = do
    modify (λ h. record h {
      link = drop_incoming lost h.link;
      p2p_stream = some w;
      connection_type = p2p;
    })
    emit env connection_type_p2p
  await_connection env relay_frame = λ h. relay_frame_read (on_link (read_frame n) h)

  -- The answer to the remote side's addresses, and the wait for its connection
  unfoldable pub negotiate : Env → P2pInfo → P2pInfo → Act (Host S) (Unit {0})
  unfolding write_frame encode await_connection
  negotiate env remote own = do
    on_link (write_frame n (control_frame Msg.p2p_answer (encode own)))
    if (remote.p2p_enabled || own.p2p_enabled) && env.listener
        then await_connection env env.selected
        else ret tt

  unfoldable pub handle_offer : Env → List ℕ → Act (Host S) (Unit {0})
  unfolding decode gather_p2p_info choose_p2p_port negotiate
  handle_offer env rest h = elim (decode rest) [
    | err e ↦ done tt h
    | panic ↦ panicked
    | ok remote ↦
        negotiate env remote
          (gather_p2p_info h.p2p_enabled (choose_p2p_port h.device_id) env.discovered env.local) h
  ]

  -- The width and the height, of two bytes each, behind the message's number.
  unfoldable pub handle_resolution : List ℕ → Act (Host S) (Unit {0})
  handle_resolution rest =
      if leb 4 (length rest)
      then modify (λ h. record h { target_resolution = some (u16_at rest 0, u16_at rest 2) })
      else ret tt

  unfoldable pub handle_control : Env → Frame → Act (Host S) (Unit {0})
  unfolding handle_handshake handle_session_request handle_session_end handle_offer
      handle_resolution
  handle_control env f = elim f.payload [
    | [] ↦ ret tt
    | kind ∷ rest ↦
        (if kind == Msg.handshake
          then handle_handshake rest
          else if kind == Msg.session_request
          then handle_session_request env rest
          else if kind == Msg.session_end
          then handle_session_end env
          else if kind == Msg.keepalive
          then on_link (write_frame n (control_frame Msg.keepalive []))
          else if kind == Msg.p2p_offer
          then handle_offer env rest
          else if kind == Msg.p2p_ready
          then ret tt
          else if kind == Msg.p2p_failed
          then modify (λ h. record h { connection_type = relay })
          else if kind == Msg.resolution
          then handle_resolution rest
          else ret tt)
  ]
