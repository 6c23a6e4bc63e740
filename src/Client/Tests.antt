-- ===== src/Client/Tests.antt =====
-- Runs of app/src-tauri/src/host.rs and app/src-tauri/src/client.rs, and their theorems, with a toy in place of
-- snow: its states count messages and its ciphertext is the text behind a zero.
use secure_desk.Base.{
  ℕ, suc, ◌≡◌, ◌≢◌, refl, true, Option, none, some, List, [], ◌∷◌, ◌++◌, arith, ◌==◌,
}
use secure_desk.Protocol.{frame, privacy, control_frame}
use secure_desk.Protocol.Control as Msg
use secure_desk.Privacy.{new_privacy}
use secure_desk.Transport.{Wire, relay}
use secure_desk.Transport.Stream.{frame_bytes}
use secure_desk.Session.{done, panicked, Noise, IsXk}
use secure_desk.Session.Links.{plain, Leaves, GoesOn}
use secure_desk.Base.Outcome.{ok, panic}
use secure_desk.Host.{succeeded, Host, Env, key_event, accepted, relay_frame}
use secure_desk.Host.Control.{await_connection}
use secure_desk.Host.Loop.{run_once, run}
use secure_desk.Host.Safety.{IsPlainHost}
use secure_desk.Host.Unencrypted.{run-IsPlainHost}
use secure_desk.Host.Survival.{run_once-GoesOn, await_connection-panicked}
use secure_desk.Client.{Client, send_key, request_and_receive_frame}
use secure_desk.Input.Common.{InputInjector, injection}
use secure_desk.Input.X11.{x11}
use secure_desk.Input.Injected.{injection-x11}
use secure_desk.Client.Remote.{host_at, client_at, after_sending}
use secure_desk.Client.Effects.{run_once-send_key}
use secure_desk.Client.Connect.{Network}
use secure_desk.Client.Requests.{
  picture_bytes, request_and_receive_frame-run_once, decision, run_once-session_request,
}

abbrev toy_decrypt : List ℕ → ℕ → Option (List ℕ × ℕ)
toy_decrypt [] s = none
toy_decrypt (b ∷ bs) s = some (bs, suc s)

abbrev pub toy : Noise ℕ ℕ
toy = record {
  responder = λ key. some 0;
  read_message = λ message h. some (suc h);
  write_message = λ h. some (7 ∷ [], suc h);
  is_handshake_finished = λ h. h == 3;
  into_transport_mode = λ h. some 0;
  encrypt = λ text s. some (0 ∷ text, suc s);
  decrypt = toy_decrypt;
}

toy-IsXk : IsXk toy
toy-IsXk key message h h' h'' out e e' e'' = ground arith

abbrev pub wire : Wire
wire = record { incoming = []; sent = []; writable = true }

abbrev pub host : Host ℕ
host = record {
  private_key = 1 ∷ [];
  device_id = b'1' ∷ b'2' ∷ [];
  link = plain wire;
  p2p_stream = none;
  injected = [];
  privacy = new_privacy;
  running = true;
  pending_connection = none;
  connection_type = relay;
  p2p_enabled = true;
  target_resolution = none;
  emitted = [];
}

abbrev pub client : Client ℕ
client = record {
  link = plain wire;
  p2p_stream = none;
  remote_id = b'9' ∷ [];
  connection_type = relay;
}

abbrev pub env : Env
env = record {
  app_handle = true;
  answer = some true;
  screen = ok (640, 480, 1 ∷ 2 ∷ 3 ∷ []);
  injects = λ e. succeeded;
  discovered = none;
  local = none;
  listener = true;
  selected = accepted none 0;
}

run-IsPlainHost_example :
    Leaves IsPlainHost (run toy (env ∷ env ∷ []) (host_at host wire (0 ∷ 0 ∷ 0 ∷ 2 ∷ 1 ∷ 9 ∷ [])))
run-IsPlainHost_example =
    run-IsPlainHost toy (env ∷ env ∷ []) (host_at host wire (0 ∷ 0 ∷ 0 ∷ 2 ∷ 1 ∷ 9 ∷ [])) toy-IsXk
      refl

-- What the injector of X11 makes of an event
abbrev screen_injector : InputInjector
screen_injector = record {
  screen_width = 640;
  screen_height = 480;
  last_mouse_x = 0;
  last_mouse_y = 0;
}

abbrev at_screen : Env
at_screen = record env { injects = injection (x11 (λ keysym. keysym)) screen_injector }

run_once-GoesOn_example :
    GoesOn (run_once toy at_screen (host_at host wire (0 ∷ 0 ∷ 0 ∷ 1 ∷ 9 ∷ [])))
run_once-GoesOn_example =
    run_once-GoesOn toy at_screen (host_at host wire (0 ∷ 0 ∷ 0 ∷ 1 ∷ 9 ∷ [])) not_relay
      (injection-x11 (λ keysym. keysym) screen_injector) taken
  where
    not_relay : accepted none 0 ≢ relay_frame
    not_relay h = cc

    taken : at_screen.screen ≢ panic
    taken h = cc

await_connection-panicked_example :
    await_connection toy env relay_frame (record host {
      link = plain (record wire { incoming = frame_bytes (frame privacy []) ++ [] });
    })
    ≡ panicked
await_connection-panicked_example = await_connection-panicked toy env host wire [] privacy

run_once-send_key_example :
    (bytes : List ℕ) × (send_key toy 65 true (client_at client wire)
      ≡ done tt (after_sending client wire bytes))
    × (run_once toy env (host_at host wire (bytes ++ (1 ∷ [])))
        ≡ done tt (record (host_at host wire (1 ∷ [])) { injected = key_event 65 true ∷ [] }))
run_once-send_key_example =
    run_once-send_key toy env client host wire wire (1 ∷ []) 65 true refl (omega arith) refl

request_and_receive_frame-run_once_example :
    (asked : List ℕ) × (run_once toy env (host_at host wire (asked ++ []))
      ≡ done tt
          (host_at host (record wire { sent = picture_bytes toy 640 480 (1 ∷ 2 ∷ 3 ∷ []) }) []))
    × (request_and_receive_frame toy (
          client_at client
            (record wire { incoming = picture_bytes toy 640 480 (1 ∷ 2 ∷ 3 ∷ []) ++ (5 ∷ []) }))
        ≡ done
            (some (640, 480, 1 ∷ 2 ∷ 3 ∷ []))
            (after_sending client (record wire { incoming = 5 ∷ [] }) asked))
request_and_receive_frame-run_once_example =
    request_and_receive_frame-run_once toy env client host wire wire [] (5 ∷ []) 640 480
      (1 ∷ 2 ∷ 3 ∷ []) refl refl refl (omega arith)

run_once-session_request_example :
    (h' : Host ℕ) × (run_once toy env
        (host_at host wire (frame_bytes (control_frame Msg.session_request (b'9' ∷ [])) ++ []))
      ≡ done tt h')
    × (h'.pending_connection ≡ none)
    × (h'.link ≡ plain (record wire { sent = frame_bytes (decision toy true) }))
run_once-session_request_example =
    run_once-session_request toy env true host wire [] (b'9' ∷ []) (λ _. refl, λ _. refl) refl
      (omega arith)

abbrev network : Network
network = record { discovered = none; local = none; try_connect = λ a. none }
