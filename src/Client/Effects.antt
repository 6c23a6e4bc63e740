-- ===== src/Client/Effects.antt =====
-- app/src-tauri/src/client.rs and app/src-tauri/src/host.rs together: the effect of each of the client's
-- messages at the host.
use secure_desk.Base.{
  ap, ℕ, ◌^◌, ◌<◌, ◌≡◌, refl, ◌∙◌, Bool, true, false, Option, some, List, [], ◌∷◌, ◌++◌, arith,
  length,
}
use secure_desk.Base.Words.{to_le16, from_le16-bytes}
use secure_desk.Protocol.{Frame, frame, privacy, control_frame, input_frame, privacy_frame}
use secure_desk.Protocol.Control as Msg
use secure_desk.Protocol.Privacy as Cmd
use secure_desk.Transport.{Wire}
use secure_desk.Transport.Stream.{frame_bytes}
use secure_desk.Privacy.{
  enable_black_screen, disable_black_screen, unblock_input, disable_all, new_privacy,
}
use secure_desk.Session.{panicked, inject_failed, done, failed, Noise, write_frame, session_stopped}
use secure_desk.Session.Links.{plain, write_frame-plain}
use secure_desk.Client.Remote.{
  host_at, client_at, after_sending, mouse_event, input_event-mouse_payload,
  input_event-key_payload, send-plain, on_link-done, run_once-frame_bytes,
}
use secure_desk.Host.{succeeded, refused, crashed, Host, Env, InputEvent, key_event}
use secure_desk.Host.Handlers.{
  input_event, handle_input, handle_privacy, status_of, privacy_command, bool_as_u8,
}
use secure_desk.Host.Control.{handle_control, handle_resolution, handle_session_end}
use secure_desk.Host.Loop.{dispatch, run_once}
use secure_desk.Client.{
  Client, MouseEvent, move, down, up, scroll, other, mouse_payload, key_payload, send, send_mouse,
  send_key, set_black_screen, send_resolution,
}

module _ {N S : Type 0} (n : Noise N S) where
  handle_input-some :
      (env : Env) (f : Frame) (h : Host S) (e : InputEvent)
      → input_event f.payload ≡ some e
      → env.injects e ≡ succeeded
      → handle_input env f h ≡ done tt (record h { injected = h.injected ++ (e ∷ []) })
  unfolding handle_input
  handle_input-some env f h e eq injects =
      rw (handle_input, eq)
        (ap
          (λ i. elim i [
            | succeeded ↦ done tt (record h { injected = h.injected ++ (e ∷ []) })
            | refused ↦ failed inject_failed h
            | crashed ↦ panicked
          ])
          injects)

  -- An input message that is sent, and read at the host.
  run_once-input_frame :
      (env : Env) (c : Client S) (h : Host S) (w w' : Wire) (rest payload : List ℕ) (e : InputEvent)
      → w.writable ≡ true
      → length payload < 2 ^ 24
      → input_event payload ≡ some e
      → env.injects e ≡ succeeded
      → (bytes : List ℕ) × (send n (input_frame payload) (client_at c w)
          ≡ done tt (after_sending c w bytes))
        × (run_once n env (host_at h w' (bytes ++ rest))
            ≡ done tt (record (host_at h w' rest) { injected = h.injected ++ (e ∷ []) }))
  unfolding dispatch
  run_once-input_frame env c h w w' rest payload e writable small eq injects =
      let f = input_frame payload in
      (
        frame_bytes f,
        send-plain n f c w writable,
        run_once-frame_bytes n env f h w' rest small
            ∙ handle_input-some env f (host_at h w' rest) e eq injects,
      )

  -- A key that the client sends over a link without a Noise channel is injected at a running host that reads
  -- the bytes, exactly as it was given and once, if its code has 16 bits and the injector takes it; no
  -- session need have been accepted.
  pub run_once-send_key :
      (env : Env) (c : Client S) (h : Host S) (w w' : Wire) (rest : List ℕ) (key : ℕ)
      (pressed : Bool)
      → w.writable ≡ true
      → key < 65536
      → env.injects (key_event key pressed) ≡ succeeded
      → (bytes : List ℕ) × (send_key n key pressed (client_at c w)
          ≡ done tt (after_sending c w bytes))
        × (run_once n env (host_at h w' (bytes ++ rest))
            ≡ done tt (record (host_at h w' rest) {
              injected = h.injected ++ (key_event key pressed ∷ []);
            }))
  unfolding send_key
  run_once-send_key env c h w w' rest key pressed writable small injects =
      run_once-input_frame env c h w w' rest (key_payload key pressed) (key_event key pressed)
        writable (key_small key pressed) (input_event-key_payload key pressed small) injects
    where
      key_small : (key : ℕ) (pressed : Bool) → length (key_payload key pressed) < 2 ^ 24
      key_small key true = omega arith
      key_small key false = omega arith

  -- Each of the four mouse messages that the client sends over a link without a Noise channel, with coordinates
  -- of 32 bits, is injected at a running host that reads the bytes as the event that `mouse_event` names, and
  -- once, if the injector takes it.
  pub run_once-send_mouse :
      (env : Env) (c : Client S) (h : Host S) (w w' : Wire) (rest : List ℕ) (x y : ℕ)
      (kind : MouseEvent) (button : Option ℕ) (e : InputEvent)
      → w.writable ≡ true
      → x < 2 ^ 32
      → y < 2 ^ 32
      → mouse_event x y kind button ≡ some e
      → env.injects e ≡ succeeded
      → (bytes : List ℕ) × (send_mouse n x y kind button (client_at c w)
          ≡ done tt (after_sending c w bytes))
        × (run_once n env (host_at h w' (bytes ++ rest))
            ≡ done tt (record (host_at h w' rest) { injected = h.injected ++ (e ∷ []) }))
  unfolding send_mouse mouse_payload
  run_once-send_mouse env c h w w' rest x y move button e writable hx hy named injects =
      run_once-input_frame env c h w w' rest _ e writable (omega arith)
        (input_event-mouse_payload x y move button hx hy ∙ named) injects
  run_once-send_mouse env c h w w' rest x y down button e writable hx hy named injects =
      run_once-input_frame env c h w w' rest _ e writable (omega arith)
        (input_event-mouse_payload x y down button hx hy ∙ named) injects
  run_once-send_mouse env c h w w' rest x y up button e writable hx hy named injects =
      run_once-input_frame env c h w w' rest _ e writable (omega arith)
        (input_event-mouse_payload x y up button hx hy ∙ named) injects
  run_once-send_mouse env c h w w' rest x y scroll button e writable hx hy named injects =
      run_once-input_frame env c h w w' rest _ e writable (omega arith)
        (input_event-mouse_payload x y scroll button hx hy ∙ named) injects
  run_once-send_mouse env c h w w' rest x y other button e writable hx hy named injects = cc

  -- The answer to a privacy command: the two flags as they are then.
  abbrev pub acknowledged : Bool → Bool → List ℕ
  acknowledged black blocked =
      frame_bytes (frame privacy (Cmd.status_ack ∷ bool_as_u8 black ∷ bool_as_u8 blocked ∷ []))

  -- The client's switch of the black screen is the host's flag afterwards, the other flag is as it was, and
  -- the host answers with both, on streams that take bytes and have no Noise channel.
  pub run_once-set_black_screen :
      (env : Env) (c : Client S) (h : Host S) (w w' : Wire) (rest : List ℕ) (enabled : Bool)
      → w.writable ≡ true
      → w'.writable ≡ true
      → (bytes : List ℕ) × (set_black_screen n enabled (client_at c w)
          ≡ done tt (after_sending c w bytes))
        × (run_once n env (host_at h w' (bytes ++ rest))
            ≡ done tt
                (record (host_at h
                  (record w' { sent = w'.sent ++ acknowledged enabled h.privacy.input_blocked })
                  rest) { privacy = record h.privacy { black_screen = enabled } }))
  unfolding set_black_screen dispatch handle_privacy privacy_command enable_black_screen
      disable_black_screen
  run_once-set_black_screen env c h w w' rest true writable writable' =
      let flagged = record (host_at h w' rest) {
        privacy = record h.privacy { black_screen = true };
      } in
      let f = privacy_frame Cmd.black_screen_on in
      (
        frame_bytes f,
        send-plain n f c w writable,
        run_once-frame_bytes n env f h w' rest (omega arith)
            ∙ on_link-done n (write_frame n (status_of n flagged)) flagged (
                write_frame-plain n (status_of n flagged) (record w' { incoming = rest })
                  writable'),
      )
  run_once-set_black_screen env c h w w' rest false writable writable' =
      let flagged = record (host_at h w' rest) {
        privacy = record h.privacy { black_screen = false };
      } in
      let f = privacy_frame Cmd.black_screen_off in
      (
        frame_bytes f,
        send-plain n f c w writable,
        run_once-frame_bytes n env f h w' rest (omega arith)
            ∙ on_link-done n (write_frame n (status_of n flagged)) flagged (
                write_frame-plain n (status_of n flagged) (record w' { incoming = rest })
                  writable'),
      )

  -- A running host that reads SESSION_END on a link without a Noise channel has both privacy flags
  -- off, leaves what follows on its stream unread, and its next iteration stops with an error.
  pub run_once-session_end :
      (env env' : Env) (h : Host S) (w : Wire) (rest : List ℕ)
      → (h' : Host S) × (run_once n env
            (host_at h w (frame_bytes (control_frame Msg.session_end []) ++ rest))
          ≡ done tt h')
        × (h'.privacy ≡ new_privacy)
        × (h'.link ≡ plain (record w { incoming = rest }))
        × (run_once n env' h' ≡ failed session_stopped h')
  unfolding dispatch handle_control handle_session_end disable_all disable_black_screen
      unblock_input run_once
  run_once-session_end env env' h w rest = (
    _,
    run_once-frame_bytes n env (control_frame Msg.session_end []) h w rest (omega arith),
    refl,
    refl,
    refl,
  )

  -- The resolution that the client sends over a link without a Noise channel, of two numbers of 16
  -- bits, is the target resolution of a running host that reads the bytes, and nothing else of the
  -- host changes.
  pub run_once-send_resolution :
      (env : Env) (c : Client S) (h : Host S) (w w' : Wire) (rest : List ℕ) (width height : ℕ)
      → w.writable ≡ true
      → width < 65536
      → height < 65536
      → (bytes : List ℕ) × (send_resolution n width height (client_at c w)
          ≡ done tt (after_sending c w bytes))
        × (run_once n env (host_at h w' (bytes ++ rest))
            ≡ done tt (record (host_at h w' rest) { target_resolution = some (width, height) }))
  unfolding send_resolution dispatch handle_control handle_resolution
  run_once-send_resolution env c h w w' rest width height writable hw hh =
      let f = control_frame Msg.resolution (to_le16 width ++ to_le16 height) in
      (
        frame_bytes f,
        send-plain n f c w writable,
        run_once-frame_bytes n env f h w' rest (omega arith)
            ∙ rw (from_le16-bytes width hw, from_le16-bytes height hh) refl,
      )
