-- ===== src/Host/Unencrypted.antt =====
-- app/src-tauri/src/host.rs: the loop of a host and its Noise channel.
use secure_desk.Base.{ℕ, List, [], ◌∷◌, arith, ◌==◌, is_empty, not, ◌&&◌}
use secure_desk.Base.Outcome.{Outcome, ok, err, panic}
use secure_desk.Clipboard.{ClipboardData, get_clipboard, new_manager, decode, type_name}
use secure_desk.Protocol.Clipboard.{clipboard_request, clipboard_data}
use secure_desk.Clipboard as Clipboard
use secure_desk.Protocol.{
  Frame, frame, video_frame, control, video, input, clipboard, file, privacy, Channel,
}
use secure_desk.Session.{panicked, Noise, IsXk, ret, read_frame}
use secure_desk.Session.Links.{Leaves, Leaves-if, Keeps, Keeps->>=, Keeps-if}
use secure_desk.Host.{Host, Env, clipboard_received, on_link}
use secure_desk.Host.Handlers.{
  privacy_command, status_of, emit, video_payload, handle_input, handle_privacy, send_video_frame,
  handle_clipboard,
}
use secure_desk.Host.Loop.{dispatch, run_once, run}
use secure_desk.Host.Safety.{
  IsPlainHost, read_frame-IsPlain, answers-IsPlain, on_link-IsPlain, handle_control-IsPlain,
}

module _ {N S : Type 0} (n : Noise N S) where
  handle_input-IsPlain :
      (env : Env) (f : Frame) → Keeps {S = Host S} IsPlainHost (handle_input env f)
  unfolding handle_input
  handle_input-IsPlain env f h k = ground arith

  privacy_command-IsPlain :
      (cmd : ℕ) (h : Host S) → IsPlainHost h → IsPlainHost (privacy_command cmd h)
  unfolding privacy_command
  privacy_command-IsPlain cmd h k = ground arith

  handle_privacy-IsPlain : (f : Frame) → Keeps IsPlainHost (handle_privacy n f)
  unfolding handle_privacy
  handle_privacy-IsPlain f = go f.payload
    where
      go : (payload : List ℕ) → Keeps IsPlainHost (handle_privacy n (frame privacy payload))
      go [] = λ s p. p
      go (cmd ∷ rest) = λ s p.
          answers-IsPlain n (status_of n (privacy_command cmd s)) (privacy_command cmd s)
            (privacy_command-IsPlain cmd s p)

  send_video_frame-IsPlain : (env : Env) → Keeps IsPlainHost (send_video_frame n env)
  unfolding send_video_frame
  send_video_frame-IsPlain env s p = by_screen env.screen
    where
      by_screen :
          (o : Outcome (Unit {0}) (ℕ × ℕ × List ℕ))
          → Leaves IsPlainHost (send_video_frame n (record env { screen = o }) s)
      by_screen (err e) = p
      by_screen (ok picture) =
          answers-IsPlain n (video_frame (video_payload picture.0 picture.1 picture.2)) s p
      by_screen panic = tt

  handle_clipboard-IsPlain : (env : Env) (f : Frame) → Keeps IsPlainHost (handle_clipboard n env f)
  unfolding handle_clipboard get_clipboard new_manager
  handle_clipboard-IsPlain env f = go f.payload
    where
      received :
          (m : Outcome Clipboard.Error ClipboardData)
          → Keeps {S = Host S} IsPlainHost (elim m [
            | ok c ↦ emit env (clipboard_received (type_name c))
            | err e ↦ ret tt
            | panic ↦ (λ h. panicked)
          ])
      received (ok c) = λ s p. p
      received (err e) = λ s p. p
      received panic = λ s p. tt

      go : (payload : List ℕ) → Keeps IsPlainHost (handle_clipboard n env (frame clipboard payload))
      go [] = λ s p. p
      go (kind ∷ rest) =
          Keeps-if IsPlainHost (kind == clipboard_request) _ _ (λ s p. p)
            (Keeps-if IsPlainHost ((kind == clipboard_data) && not (is_empty rest)) _ _
              (received (decode rest)) (λ s p. p))

  dispatch-IsPlain : (env : Env) (f : Frame) → IsXk n → Keeps IsPlainHost (dispatch n env f)
  unfolding dispatch
  dispatch-IsPlain env f xk = go f.channel
    where
      go : (c : Channel) → Keeps IsPlainHost (dispatch n env (frame c f.payload))
      go control = handle_control-IsPlain n env (frame control f.payload) xk
      go input = handle_input-IsPlain env (frame input f.payload)
      go privacy = handle_privacy-IsPlain (frame privacy f.payload)
      go video = send_video_frame-IsPlain env
      go clipboard = handle_clipboard-IsPlain env (frame clipboard f.payload)
      go file = λ s p. p

  pub run_once-IsPlainHost : (env : Env) → IsXk n → Keeps IsPlainHost (run_once n env)
  unfolding run_once
  run_once-IsPlainHost env xk s p = Leaves-if IsPlainHost (not s.running) _ _ p (
      Keeps->>= IsPlainHost (on_link (read_frame n)) (dispatch n env)
        (on_link-IsPlain n (read_frame n) (read_frame-IsPlain n)) (λ f. dispatch-IsPlain env f xk) s
        p)

  -- With the pattern XK, a host's loop that starts without a Noise channel leaves the host without one, done
  -- or failed, whatever bytes arrive and whatever the surroundings give.
  pub run-IsPlainHost :
      (envs : List Env) (h : Host S) → IsXk n → IsPlainHost h → Leaves IsPlainHost (run n envs h)
  unfolding run
  run-IsPlainHost [] s xk p = p
  run-IsPlainHost (env ∷ envs) s xk p =
      Leaves-if IsPlainHost s.running _ _
        (Keeps->>= IsPlainHost (run_once n env) (λ _. run n envs) (run_once-IsPlainHost env xk)
          (λ _ s' p'. run-IsPlainHost envs s' xk p') s p)
        p
