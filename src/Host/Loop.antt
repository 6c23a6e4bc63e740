-- ===== src/Host/Loop.antt =====
-- app/src-tauri/src/host.rs: an iteration of the host's loop, the loop and its end.
use secure_desk.Base.{false, not, none, List, [], ◌∷◌, if◌then◌else◌}
use secure_desk.Protocol.{control, video, input, clipboard, file, privacy, Frame}
use secure_desk.Privacy.{disable_all}
use secure_desk.Session.{Act, done, failed, Noise, ret, ◌>>=◌, ◌>>◌, read_frame, session_stopped}
use secure_desk.Host.{Host, Env, on_link}
use secure_desk.Host.Handlers.{handle_input, handle_privacy, send_video_frame, handle_clipboard}
use secure_desk.Host.Control.{handle_control}

unfoldable pub stop : {S : Type 0} → Host S → Host S
unfolding disable_all
stop h = record h {
  running = false;
  privacy = disable_all h.privacy;
  link = record h.link { stream = none };
}

module _ {N S : Type 0} (n : Noise N S) where
  unfoldable pub dispatch : Env → Frame → Act (Host S) (Unit {0})
  unfolding handle_input handle_privacy send_video_frame handle_clipboard handle_control
  dispatch env f = elim f.channel [
    | control ↦ handle_control n env f
    | input ↦ handle_input env f
    | privacy ↦ handle_privacy n f
    | video ↦ send_video_frame n env
    | clipboard ↦ handle_clipboard n env f
    | file ↦ ret tt
  ]

  unfoldable pub run_once : Env → Act (Host S) (Unit {0})
  unfolding read_frame dispatch
  run_once env h =
      if not h.running
      then failed session_stopped h
      else (do f ← on_link (read_frame n); dispatch env f) h

  -- The loop, for as many frames as there are surroundings.
  unfoldable pub run : List Env → Act (Host S) (Unit {0})
  unfolding run_once
  run [] = ret tt
  run (env ∷ envs) =
      let rest = run envs in λ h. if h.running then (do run_once env; rest) h else done tt h
