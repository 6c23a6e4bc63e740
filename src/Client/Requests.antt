-- ===== src/Client/Requests.antt =====
-- app/src-tauri/src/client.rs and app/src-tauri/src/host.rs together: the picture that a client asks for, and
-- the host's answer to a request for a session.
use secure_desk.Base.{
  ℕ, ◌+◌, ◌/◌, ◌%◌, ◌^◌, ◌<◌, ◌≡◌, ◌↔◌, Option, refl, ap, ◌∙◌, Bool, true, false, none, some, List,
  [], ◌∷◌, ◌++◌, arith, if◌then◌else◌, length, le→ltb,
}
use secure_desk.Base.Words.{from_le16, as_u8}
use secure_desk.Base.Outcome.{ok}
use secure_desk.Protocol.{Frame, frame, video, control_frame, video_frame}
use secure_desk.Protocol.Control as Msg
use secure_desk.Transport.{Wire}
use secure_desk.Transport.Stream.{frame_bytes}
use secure_desk.Session.{
  Run, done, failed, panicked, Act, Noise, Link, continue_with, ret, ◌>>=◌, ◌>>◌, read_frame,
  write_frame,
}
use secure_desk.Session.Links.{plain, write_frame-plain, read_frame-plain}
use secure_desk.Client.Remote.{
  host_at, client_at, after_sending, send-plain, on_link-done, run_once-frame_bytes,
}
use secure_desk.Host.{Host, Env, connection_request, connection_accepted, on_link}
use secure_desk.Host.Handlers.{emit, video_payload, send_video_frame}
use secure_desk.Host.Control.{
  handle_control, handle_session_request, respond, answered, remote_id_of,
}
use secure_desk.Host.Loop.{dispatch, run_once}
use secure_desk.Client.{Client, picture_of, request_frame, request_and_receive_frame, on_client}

module _ {N S : Type 0} (n : Noise N S) where
  -- The bytes of a host's picture.
  abbrev pub picture_bytes : ℕ → ℕ → List ℕ → List ℕ
  picture_bytes width height bytes = frame_bytes (video_frame (video_payload width height bytes))

  picture_of-video_payload :
      (width height : ℕ) (bytes : List ℕ)
      → picture_of (video_frame (video_payload width height bytes))
        ≡ some (width % 65536, height % 65536, bytes)
  unfolding picture_of video_payload
  picture_of-video_payload width height bytes =
      rw
        (
          le→ltb (length (video_payload width height bytes)) 13 (omega arith),
          low_word width,
          low_word height,
        )
        refl
    where
      low_word : (k : ℕ) → from_le16 (as_u8 k) (as_u8 (k / 256)) ≡ k % 65536
      low_word k = omega arith

  on_client-done :
      {A : Type 0} (m : Act (Link S) A) (c : Client S) {a : A} {l : Link S}
      → m c.link ≡ done a l
      → on_client m c ≡ done a (record c { link = l })
  on_client-done {A = A} m c e =
      ap
        (λ (r : Run (Link S) A). elim r [
          | done a l ↦ done a (record c { link = l })
          | failed e l ↦ failed e (record c { link = l })
          | panicked ↦ panicked
        ])
        e

  -- A client that asks for a picture, over streams that take bytes and have no Noise channel, sends bytes at
  -- which the host answers with its capture, and reads from that answer the picture with its width and
  -- height modulo 2 ^ 16, where the picture has less than 2 ^ 24 - 13 bytes.
  pub request_and_receive_frame-run_once :
      (env : Env) (c : Client S) (h : Host S) (w w' : Wire) (rest more : List ℕ) (width height : ℕ)
      (bytes : List ℕ)
      → w.writable ≡ true
      → w'.writable ≡ true
      → env.screen ≡ ok (width, height, bytes)
      → length bytes + 13 < 2 ^ 24
      → (asked : List ℕ) × (run_once n env (host_at h w' (asked ++ rest))
          ≡ done tt
              (host_at h (record w' { sent = w'.sent ++ picture_bytes width height bytes }) rest))
        × (request_and_receive_frame n
              (client_at c (record w { incoming = picture_bytes width height bytes ++ more }))
            ≡ done
                (some (width % 65536, height % 65536, bytes))
                (after_sending c (record w { incoming = more }) asked))
  unfolding dispatch send_video_frame request_and_receive_frame request_frame
  request_and_receive_frame-run_once env c h w w' rest more width height bytes writable writable'
        captured small =
      let f = video_frame (video_payload width height bytes) in
      (
        frame_bytes (frame video (0x03 ∷ [])),
        run_once-frame_bytes n env (frame video (0x03 ∷ [])) h w' rest (omega arith)
            ∙ (rw (send_video_frame, captured)
                (on_link-done n (write_frame n f) (host_at h w' rest)
                  (write_frame-plain n f (record w' { incoming = rest }) writable'))),
        ap
              (λ r.
                continue_with r
                  (λ _. (do answer ← on_client (read_frame n); ret (picture_of answer))))
              (send-plain n (frame video (0x03 ∷ [])) c
                (record w { incoming = frame_bytes f ++ more }) writable)
            ∙ (ap (λ r. continue_with r (λ answer. ret (picture_of answer)))
                  (on_client-done (read_frame n)
                    (client_at c (record w {
                      incoming = frame_bytes f ++ more;
                      sent = w.sent ++ frame_bytes (frame video (0x03 ∷ []));
                    }))
                    (read_frame-plain n f more
                      (record w { sent = w.sent ++ frame_bytes (frame video (0x03 ∷ [])) })
                      (omega arith)))
                ∙ ap
                    (λ p. done p (
                      after_sending c (record w { incoming = more })
                        (frame_bytes (frame video (0x03 ∷ [])))))
                    (picture_of-video_payload width height bytes)),
      )

  -- The frame that tells the decision
  abbrev pub decision : Bool → Frame
  decision b =
      if b
      then control_frame Msg.session_accept (0x01 ∷ [])
      else control_frame Msg.session_end (0x00 ∷ [])

  respond-plain :
      (env : Env) (remote_id : List ℕ) (h : Host S) (w : Wire)
      → w.writable ≡ true
      → (h' : Host S) × (respond n env remote_id (record h { link = plain w }) ≡ done tt h')
        × (h'.pending_connection ≡ h.pending_connection)
        × (h'.link
            ≡ plain (record w { sent = w.sent ++ frame_bytes (decision (answered env.answer)) }))
  unfolding respond
  respond-plain env remote_id h w writable = go (answered env.answer)
    where
      go :
          (b : Bool)
          → (h' : Host S) × ((if b
                  then (do
                    on_link (write_frame n (control_frame Msg.session_accept (0x01 ∷ [])))
                    emit env (connection_accepted remote_id))
                  else on_link (write_frame n (control_frame Msg.session_end (0x00 ∷ []))))
                (record h { link = plain w })
              ≡ done tt h')
            × (h'.pending_connection ≡ h.pending_connection)
            × (h'.link ≡ plain (record w { sent = w.sent ++ frame_bytes (decision b) }))
      go true = (
        _,
        ap (λ r. continue_with r (λ _. emit env (connection_accepted remote_id)))
            (on_link-done n (write_frame n (decision true)) (record h { link = plain w })
              (write_frame-plain n (decision true) w writable)),
        refl,
        refl,
      )
      go false = (
        _,
        on_link-done n (write_frame n (decision false)) (record h { link = plain w })
            (write_frame-plain n (decision false) w writable),
        refl,
        refl,
      )

  answered-eq :
      (answer : Option Bool) (accept : Bool)
      → (accept ≡ true) ↔ (answer ≡ some true)
      → answered answer ≡ accept
  answered-eq answer accept h = ground arith

  -- The host's answer to a request for a session: acceptance where the dialog was answered with it in
  -- time, a refusal otherwise; no request is pending after it. The identifier has less than 2 ^ 24 - 1 bytes, and
  -- the stream takes bytes and has no Noise channel.
  pub run_once-session_request :
      (env : Env) (accept : Bool) (h : Host S) (w : Wire) (rest remote_id : List ℕ)
      → (accept ≡ true) ↔ (env.answer ≡ some true)
      → w.writable ≡ true
      → length remote_id + 1 < 2 ^ 24
      → (h' : Host S) × (run_once n env
            (host_at h w (frame_bytes (control_frame Msg.session_request remote_id) ++ rest))
          ≡ done tt h')
        × (h'.pending_connection ≡ none)
        × (h'.link
            ≡ plain (record w { incoming = rest; sent = w.sent ++ frame_bytes (decision accept) }))
  unfolding dispatch handle_control handle_session_request
  run_once-session_request env accept h w rest remote_id decided writable small =
      let f = control_frame Msg.session_request remote_id in
      let asked = record h {
        running = true;
        pending_connection = none;
        emitted =
            if env.app_handle
            then h.emitted ++ (connection_request (remote_id_of remote_id) ∷ [])
            else h.emitted;
      } in
      let answer =
        respond-plain env (remote_id_of remote_id) asked (record w { incoming = rest }) writable in
      let told = λ (b : Bool).
        plain (record w { incoming = rest; sent = w.sent ++ frame_bytes (decision b) }) in
      (
        answer.0,
        run_once-frame_bytes n env f h w rest (omega arith) ∙ answer.1,
        answer.2,
        answer.3 ∙ ap told (answered-eq env.answer accept decided),
      )
