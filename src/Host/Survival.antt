-- ===== src/Host/Survival.antt =====
-- app/src-tauri/src/host.rs: when an iteration of the host's loop ends the program, by a panic.
use secure_desk.Base.{
  ℕ, ◌≡◌, ◌≢◌, refl, ap, ◌∙◌, Bool, true, false, not, ◌&&◌, ◌||◌, none, some, List, [], ◌∷◌, ◌++◌,
  arith, ◌==◌, if◌then◌else◌, is_empty, Option-cases, inl, inr,
}
use secure_desk.Base.Outcome.{Outcome, ok, err, panic, Returns}
use secure_desk.Clipboard.{ClipboardData, get_clipboard, new_manager, decode, type_name}
use secure_desk.Clipboard as Clipboard
use secure_desk.Clipboard.Parse.{decode_clipboard-Returns}
use secure_desk.P2p.{choose_p2p_port, gather_p2p_info}
use secure_desk.Protocol.Clipboard.{clipboard_request, clipboard_data}
use secure_desk.Protocol.Control.{
  handshake, session_request, session_accept, session_end, keepalive, resolution, p2p_offer,
  p2p_answer, p2p_ready, p2p_failed,
}
use secure_desk.Protocol.{
  Frame, frame, video_frame, control_frame, control, video, input, clipboard, file, privacy,
  Channel,
}
use secure_desk.Transport.{Wire}
use secure_desk.Transport.PeerInfo.{P2pInfo, encode}
use secure_desk.Transport.PeerInfo as PeerInfo
use secure_desk.Transport.PeerInfo.Parse.{decode-Returns}
use secure_desk.Session.{
  Run, done, failed, panicked, Act, Noise, Link, continue_with, ret, session_stopped, inject_failed,
  read_frame, write_frame,
}
use secure_desk.Session.Links.{GoesOn, GoesOn->>=, GoesOn-if, plain, read_frame-plain}
use secure_desk.Transport.Stream.{frame_bytes}
use secure_desk.Host.{
  InputEvent, Injection, succeeded, refused, crashed, Host, Env, Selected, accepted, relay_frame,
  clipboard_received, on_link,
}
use secure_desk.Host.Handlers.{
  input_event, emit, privacy_command, status_of, handle_input, handle_privacy, video_payload,
  send_video_frame, handle_clipboard,
}
use secure_desk.Host.Control.{
  answered, relay_frame_read, respond, remote_id_of, handle_session_request, await_connection,
  negotiate, handle_offer, handle_control,
}
use secure_desk.Host.Loop.{dispatch, run_once}
use secure_desk.Host.NoPanic.{
  read_frame-GoesOn, answers-GoesOn, on_link-GoesOn, handle_handshake-GoesOn,
}

module _ {N S : Type 0} (n : Noise N S) where
  respond-GoesOn :
      (env : Env) (remote_id : List ℕ) (h : Host S) → GoesOn (respond n env remote_id h)
  unfolding respond
  respond-GoesOn env remote_id =
      GoesOn-if (answered env.answer) _ _
        (GoesOn->>= _ _ (answers-GoesOn n (control_frame session_accept (0x01 ∷ []))) (λ _ h. tt))
        (answers-GoesOn n (control_frame session_end (0x00 ∷ [])))

  await_connection-GoesOn :
      (env : Env) (s : Selected) (h : Host S)
      → s ≢ relay_frame
      → GoesOn (await_connection n env s h)
  unfolding await_connection
  await_connection-GoesOn env (accepted none lost) h k = tt
  await_connection-GoesOn env (accepted (some w) lost) h k = tt
  await_connection-GoesOn env relay_frame h k = absurd (k refl)

  negotiate-GoesOn :
      (env : Env) (remote own : P2pInfo) (h : Host S)
      → env.selected ≢ relay_frame
      → GoesOn (negotiate n env remote own h)
  unfolding negotiate
  negotiate-GoesOn env remote own h k =
      GoesOn->>= (on_link (write_frame n (control_frame p2p_answer (encode own)))) _
        (answers-GoesOn n (control_frame p2p_answer (encode own)))
        (λ _.
          GoesOn-if ((remote.p2p_enabled || own.p2p_enabled) && env.listener) _ _
            (λ h'. await_connection-GoesOn env env.selected h' k) (λ h'. tt))
        h

  handle_offer-GoesOn :
      (env : Env) (rest : List ℕ) (h : Host S)
      → env.selected ≢ relay_frame
      → GoesOn (handle_offer n env rest h)
  unfolding handle_offer
  handle_offer-GoesOn env rest h k = go (PeerInfo.decode rest) (decode-Returns rest)
    where
      go :
          (m : Outcome PeerInfo.Error P2pInfo)
          → Returns m
          → GoesOn (elim m [
            | err e ↦ done tt h
            | panic ↦ panicked
            | ok remote ↦
                negotiate n env remote
                  (gather_p2p_info h.p2p_enabled
                    (choose_p2p_port h.device_id)
                    env.discovered
                    env.local)
                  h
          ])
      go (ok remote) r = negotiate-GoesOn env remote _ h k
      go (err e) r = tt
      go panic r = r

  handle_control-GoesOn :
      (env : Env) (f : Frame) (h : Host S)
      → env.selected ≢ relay_frame
      → GoesOn (handle_control n env f h)
  unfolding handle_control
  handle_control-GoesOn env f h k = go f.payload h
    where
      go : (payload : List ℕ) (h : Host S) → GoesOn (handle_control n env (frame control payload) h)
      go [] h = tt
      go (kind ∷ rest) h =
          GoesOn-if (kind == handshake) _ _ (handle_handshake-GoesOn n rest)
            (GoesOn-if (kind == session_request) _ _ (λ h'. request_goes_on rest h')
              (GoesOn-if (kind == session_end) _ _ (λ h'. tt)
                (GoesOn-if (kind == keepalive) _ _ (answers-GoesOn n (control_frame keepalive [])) (
                  GoesOn-if (kind == p2p_offer) _ _ (λ h'. handle_offer-GoesOn env rest h' k)
                    (GoesOn-if (kind == p2p_ready) _ _ (λ h'. tt)
                      (GoesOn-if (kind == p2p_failed) _ _ (λ h'. tt)
                        (GoesOn-if (kind == resolution) _ _ (λ h'. ground arith) (λ h'. tt))))))))
            h
        where
          request_goes_on :
              (rest : List ℕ) (h : Host S) → GoesOn (handle_session_request n env rest h)
          request_goes_on rest h = respond-GoesOn env (remote_id_of rest) _

  handle_privacy-GoesOn : (f : Frame) (h : Host S) → GoesOn (handle_privacy n f h)
  unfolding handle_privacy
  handle_privacy-GoesOn f = go f.payload
    where
      go : (payload : List ℕ) (h : Host S) → GoesOn (handle_privacy n (frame privacy payload) h)
      go [] h = tt
      go (cmd ∷ rest) h =
          answers-GoesOn n (status_of n (privacy_command cmd h)) (privacy_command cmd h)

  send_video_frame-GoesOn :
      (env : Env) (h : Host S) → env.screen ≢ panic → GoesOn (send_video_frame n env h)
  unfolding send_video_frame
  send_video_frame-GoesOn env h taken = by_screen env.screen taken
    where
      by_screen :
          (o : Outcome (Unit {0}) (ℕ × ℕ × List ℕ))
          → o ≢ panic
          → GoesOn (send_video_frame n (record env { screen = o }) h)
      by_screen (err e) k = tt
      by_screen (ok picture) k =
          answers-GoesOn n (video_frame (video_payload picture.0 picture.1 picture.2)) h
      by_screen panic k = absurd (k refl)

  handle_input-GoesOn :
      (env : Env) (f : Frame) (h : Host S)
      → ((e : InputEvent) → env.injects e ≢ crashed)
      → GoesOn (handle_input env f h)
  unfolding handle_input
  handle_input-GoesOn env f h injected = elim (Option-cases (input_event f.payload)) [
    | inl none_there ↦ rw (handle_input, none_there) tt
    | inr (e, there) ↦ rw (handle_input, there) (by_injection e (env.injects e) (injected e))
  ]
    where
      by_injection :
          (e : InputEvent) (i : Injection)
          → i ≢ crashed
          → GoesOn {S = Host S} (elim i [
            | succeeded ↦ done tt (record h { injected = h.injected ++ (e ∷ []) })
            | refused ↦ failed inject_failed h
            | crashed ↦ panicked
          ])
      by_injection e succeeded k = tt
      by_injection e refused k = tt
      by_injection e crashed k = absurd (k refl)

  handle_clipboard-GoesOn :
      (env : Env) (f : Frame) (h : Host S) → GoesOn (handle_clipboard n env f h)
  unfolding handle_clipboard get_clipboard new_manager
  handle_clipboard-GoesOn env f = go f.payload
    where
      received :
          (m : Outcome Clipboard.Error ClipboardData)
          → Returns m
          → (h : Host S)
          → GoesOn {S = Host S} (
              (elim m as (λ _. Act (Host S) (Unit {0})) [
                | ok c ↦ emit env (clipboard_received (type_name c))
                | err e ↦ ret tt
                | panic ↦ (λ h. panicked)
              ])
                h)
      received (ok c) r h = tt
      received (err e) r h = tt
      received panic r h = r

      go :
          (payload : List ℕ) (h : Host S)
          → GoesOn (handle_clipboard n env (frame clipboard payload) h)
      go [] h = tt
      go (kind ∷ rest) h =
          GoesOn-if (kind == clipboard_request) _ _ (λ h'. tt)
            (GoesOn-if ((kind == clipboard_data) && not (is_empty rest)) _ _
              (received (decode rest) (decode_clipboard-Returns rest)) (λ h'. tt))
            h

  dispatch-GoesOn :
      (env : Env) (f : Frame) (h : Host S)
      → env.selected ≢ relay_frame
      → ((e : InputEvent) → env.injects e ≢ crashed)
      → env.screen ≢ panic
      → GoesOn (dispatch n env f h)
  unfolding dispatch
  dispatch-GoesOn env f h k injected taken = go f.channel
    where
      go : (c : Channel) → GoesOn (dispatch n env (frame c f.payload) h)
      go control = handle_control-GoesOn env (frame control f.payload) h k
      go input = handle_input-GoesOn env (frame input f.payload) h injected
      go privacy = handle_privacy-GoesOn (frame privacy f.payload) h
      go video = send_video_frame-GoesOn env h taken
      go clipboard = handle_clipboard-GoesOn env (frame clipboard f.payload) h
      go file = tt

  -- Where no call of the injector panics and the capture does not, an iteration of the host's loop, whatever bytes
  -- arrive, ends with a value or an error and never panics itself, unless a frame from the relay is what ends the
  -- wait for a P2P connection.
  pub run_once-GoesOn :
      (env : Env) (h : Host S)
      → env.selected ≢ relay_frame
      → ((e : InputEvent) → env.injects e ≢ crashed)
      → env.screen ≢ panic
      → GoesOn (run_once n env h)
  unfolding run_once
  run_once-GoesOn env h k injected taken = by_running (not h.running)
    where
      by_running :
          (b : Bool)
          → GoesOn (
              if b
              then failed session_stopped h
              else continue_with (on_link (read_frame n) h) (dispatch n env))
      by_running true = tt
      by_running false =
          GoesOn->>= (on_link (read_frame n)) (dispatch n env)
            (on_link-GoesOn n (read_frame n) (read_frame-GoesOn n))
            (λ f h'. dispatch-GoesOn env f h' k injected taken) h

  empty_panics : (c : Channel) (h : Host S) → relay_frame_read n (done (frame c []) h) ≡ panicked
  empty_panics control h = refl
  empty_panics video h = refl
  empty_panics input h = refl
  empty_panics clipboard h = refl
  empty_panics file h = refl
  empty_panics privacy h = refl

  -- Where a relay frame ends the wait for a P2P connection, on a link without a Noise channel, a frame of any
  -- channel that has no payload is a panic.
  pub await_connection-panicked :
      (env : Env) (h : Host S) (w : Wire) (rest : List ℕ) (c : Channel)
      → await_connection n env relay_frame
          (record h { link = plain (record w { incoming = frame_bytes (frame c []) ++ rest }) })
        ≡ panicked
  unfolding await_connection
  await_connection-panicked env h w rest c =
      ap
        (λ (r : Run (Link S) Frame). relay_frame_read n (elim r [
          | done a l ↦ done a (record h { link = l })
          | failed e l ↦ failed e (record h { link = l })
          | panicked ↦ panicked
        ]))
        (read_frame-plain n (frame c []) rest w (omega arith))
      ∙ empty_panics c (record h { link = plain (record w { incoming = rest }) })
