-- ===== src/Host/Safety.antt =====
-- app/src-tauri/src/host.rs: which steps of the control channel leave a link without a Noise channel.
use secure_desk.Base.{
  ℕ, ◌≡◌, refl, ◌&&◌, ◌||◌, none, some, List, [], ◌∷◌, ◌==◌, Option-cases, inl, inr, arith,
}
use secure_desk.Base.Outcome.{Outcome, ok, err, panic}
use secure_desk.P2p.{choose_p2p_port, gather_p2p_info}
use secure_desk.Protocol.Control.{
  handshake, session_request, session_accept, session_end, keepalive, resolution, p2p_offer,
  p2p_answer, p2p_ready, p2p_failed,
}
use secure_desk.Protocol.{Frame, control_frame, frame, control}
use secure_desk.Transport.{read_header}
use secure_desk.Transport.PeerInfo.{P2pInfo, encode, decode}
use secure_desk.Transport.PeerInfo as PeerInfo
use secure_desk.Session.{
  Run, done, failed, panicked, Act, Noise, IsXk, Link, lift, read_bytes, write_bytes, read_frame,
  write_frame, connected, decrypted, encrypted,
}
use secure_desk.Session.Links.{Leaves, Keeps, Keeps->>=, Keeps-if}
use secure_desk.Host.{
  Host, Env, Selected, accepted, relay_frame, UiEvent, connection_accepted, on_link,
}
use secure_desk.Host.Handlers.{emit}
use secure_desk.Host.Control.{
  answered, relay_frame_read, respond, remote_id_of, negotiate, handle_handshake,
  handle_session_request, await_connection, handle_offer, handle_control,
}

-- The link has no Noise channel.
abbrev pub IsPlain : {S : Type 0} → Link S → Type 0
IsPlain l = l.channel ≡ none

abbrev pub IsPlainHost : {S : Type 0} → Host S → Type 0
IsPlainHost h = h.link.channel ≡ none

module _ {N S : Type 0} (n : Noise N S) where
  read_bytes-IsPlain : (count : ℕ) → Keeps IsPlain (read_bytes n count)
  unfolding read_bytes
  read_bytes-IsPlain count l h = ground arith

  write_bytes-IsPlain : (bytes : List ℕ) → Keeps IsPlain (write_bytes n bytes)
  unfolding write_bytes
  write_bytes-IsPlain bytes l h = ground arith

  decrypted-IsPlain : (payload : List ℕ) → Keeps IsPlain (decrypted n payload)
  decrypted-IsPlain payload l h = rw h refl

  encrypted-IsPlain : (payload : List ℕ) → Keeps IsPlain (encrypted n payload)
  encrypted-IsPlain payload l h = rw h refl

  lift-IsPlain : {A : Type 0} (m : Outcome _ A) → Keeps {S = Link S} IsPlain (lift m)
  lift-IsPlain (ok a) l h = h
  lift-IsPlain (err e) l h = h
  lift-IsPlain panic l h = tt

  connected-IsPlain : Keeps IsPlain (connected n)
  connected-IsPlain l h = ground arith

  pub read_frame-IsPlain : Keeps IsPlain (read_frame n)
  unfolding read_frame
  read_frame-IsPlain = Keeps->>= IsPlain _ _ (read_bytes-IsPlain 4) (λ head.
      Keeps->>= IsPlain _ _ (lift-IsPlain (read_header head)) (λ p.
        Keeps->>= IsPlain _ _ (read_bytes-IsPlain p.1)
          (λ payload. Keeps->>= IsPlain _ _ (decrypted-IsPlain payload) (λ bytes l h. h))))

  write_frame-IsPlain : (f : Frame) → Keeps IsPlain (write_frame n f)
  unfolding write_frame
  write_frame-IsPlain f = Keeps->>= IsPlain _ _ connected-IsPlain (λ _.
      Keeps->>= IsPlain _ _ (encrypted-IsPlain f.payload) (λ payload.
        Keeps->>= IsPlain _ _ (write_bytes-IsPlain _) (λ _. write_bytes-IsPlain payload)))

  pub on_link-IsPlain :
      {A : Type 0} (m : Act (Link S) A) → Keeps IsPlain m → Keeps IsPlainHost (on_link m)
  on_link-IsPlain {A = A} m keeps h k = by_cases (m h.link) (keeps h.link k)
    where
      by_cases :
          (r : Run (Link S) A)
          → Leaves IsPlain r
          → Leaves IsPlainHost (elim r [
            | done a l ↦ done a (record h { link = l })
            | failed e l ↦ failed e (record h { link = l })
            | panicked ↦ panicked
          ])
      by_cases (done a l) k = k
      by_cases (failed e l) k = k
      by_cases panicked k = tt

  pub answers-IsPlain : (f : Frame) → Keeps IsPlainHost (on_link (write_frame n f))
  answers-IsPlain f = on_link-IsPlain (write_frame n f) (write_frame-IsPlain f)

  -- After one message read and one written, the handshake is not finished, so no channel is made.
  handle_handshake-IsPlain :
      (message : List ℕ) → IsXk n → Keeps IsPlainHost (handle_handshake n message)
  unfolding handle_handshake
  handle_handshake-IsPlain message xk h k = elim (Option-cases (n.responder h.private_key)) [
    | inl e ↦ rw (handle_handshake, e) k
    | inr (r, e) ↦ elim (Option-cases (n.read_message message r)) [
      | inl e' ↦ rw (handle_handshake, e, e') k
      | inr (r', e') ↦ elim (Option-cases (n.write_message r')) [
        | inl e'' ↦ rw (handle_handshake, e, e', e'') k
        | inr ((out, r''), e'') ↦
            rw (handle_handshake, e, e', e'', xk h.private_key message r r' r'' out e e' e'')
              (Keeps->>= IsPlainHost (on_link (write_frame n (control_frame handshake out)))
                (λ _ s. done tt s) (answers-IsPlain (control_frame handshake out)) (λ _ s p. p) h k)
      ]
    ]
  ]

  pub emit-IsPlain : (env : Env) (e : UiEvent) → Keeps {S = Host S} IsPlainHost (emit env e)
  emit-IsPlain env e s p = p

  respond-IsPlain : (env : Env) (remote_id : List ℕ) → Keeps IsPlainHost (respond n env remote_id)
  unfolding respond
  respond-IsPlain env remote_id =
      Keeps-if IsPlainHost (answered env.answer) _ _
        (Keeps->>= IsPlainHost _ _ (answers-IsPlain (control_frame session_accept (0x01 ∷ [])))
          (λ _. emit-IsPlain env (connection_accepted remote_id)))
        (answers-IsPlain (control_frame session_end (0x00 ∷ [])))

  handle_session_request-IsPlain :
      (env : Env) (rest : List ℕ) → Keeps IsPlainHost (handle_session_request n env rest)
  unfolding handle_session_request
  handle_session_request-IsPlain env rest s p = respond-IsPlain env (remote_id_of rest) _ p

  relay_frame_read-IsPlain :
      (r : Run (Host S) Frame) → Leaves IsPlainHost r → Leaves IsPlainHost (relay_frame_read n r)
  relay_frame_read-IsPlain (done f h) k = ground arith
  relay_frame_read-IsPlain (failed e h) k = k
  relay_frame_read-IsPlain panicked k = tt

  await_connection-IsPlain :
      (env : Env) (s : Selected) → Keeps IsPlainHost (await_connection n env s)
  unfolding await_connection
  await_connection-IsPlain env (accepted none lost) h k = ground arith
  await_connection-IsPlain env (accepted (some w) lost) h k = ground arith
  await_connection-IsPlain env relay_frame h k =
      relay_frame_read-IsPlain (on_link (read_frame n) h)
        (on_link-IsPlain (read_frame n) read_frame-IsPlain h k)

  negotiate-IsPlain :
      (env : Env) (remote own : P2pInfo) → Keeps IsPlainHost (negotiate n env remote own)
  unfolding negotiate
  negotiate-IsPlain env remote own =
      Keeps->>= IsPlainHost _ _ (answers-IsPlain (control_frame p2p_answer (encode own))) (λ _.
        Keeps-if IsPlainHost ((remote.p2p_enabled || own.p2p_enabled) && env.listener) _ _
          (await_connection-IsPlain env env.selected) (λ s p. p))

  handle_offer-IsPlain : (env : Env) (rest : List ℕ) → Keeps IsPlainHost (handle_offer n env rest)
  unfolding handle_offer
  handle_offer-IsPlain env rest h k = go (decode rest)
    where
      go :
          (m : Outcome PeerInfo.Error P2pInfo)
          → Leaves IsPlainHost (elim m [
            | err e ↦ done tt h
            | panic ↦ panicked
            | ok remote ↦
                negotiate n env remote
                  (gather_p2p_info h.p2p_enabled
                    (choose_p2p_port h.device_id)
                    env.discovered
                    env.local)
                  h
          ])
      go (ok remote) = negotiate-IsPlain env remote _ h k
      go (err e) = k
      go panic = tt

  pub handle_control-IsPlain :
      (env : Env) (f : Frame) → IsXk n → Keeps IsPlainHost (handle_control n env f)
  unfolding handle_control
  handle_control-IsPlain env f xk = go f.payload
    where
      go : (payload : List ℕ) → Keeps IsPlainHost (handle_control n env (frame control payload))
      go [] = λ s p. p
      go (kind ∷ rest) =
          Keeps-if IsPlainHost (kind == handshake) _ _ (handle_handshake-IsPlain rest xk) (
            Keeps-if IsPlainHost (kind == session_request) _ _
              (handle_session_request-IsPlain env rest)
              (Keeps-if IsPlainHost (kind == session_end) _ _ (λ s p. p)
                (Keeps-if IsPlainHost (kind == keepalive) _ _
                  (answers-IsPlain (control_frame keepalive []))
                  (Keeps-if IsPlainHost (kind == p2p_offer) _ _ (handle_offer-IsPlain env rest) (
                    Keeps-if IsPlainHost (kind == p2p_ready) _ _ (λ s p. p)
                      (Keeps-if IsPlainHost (kind == p2p_failed) _ _ (λ s p. p)
                        (Keeps-if IsPlainHost (kind == resolution) _ _ (λ s p. ground arith)
                          (λ s p. p))))))))
