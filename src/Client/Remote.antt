-- ===== src/Client/Remote.antt =====
-- app/src-tauri/src/client.rs and app/src-tauri/src/host.rs together: what a message of the client does at the
-- host that reads it, over streams without a Noise channel.
use secure_desk.Base.{ℕ, ◌^◌, ◌<◌, ◌≡◌, refl, ap, Bool, true, false, Option, none, some, List, ◌++◌}
use secure_desk.Base.Words.{from_le16-bytes, from_le32-bytes}
use secure_desk.Protocol.{Frame}
use secure_desk.Transport.{Wire}
use secure_desk.Transport.Stream.{frame_bytes, FitsHeader}
use secure_desk.Session.{Run, done, failed, panicked, Act, Noise, Link, continue_with, read_frame}
use secure_desk.Session.Links.{plain, write_frame-plain, read_frame-plain}
use secure_desk.Host.{
  Host, Env, InputEvent, move_mouse, mouse_button, mouse_scroll, key_event, on_link,
}
use secure_desk.Host.Handlers.{input_event}
use secure_desk.Host.Loop.{dispatch, run_once}
use secure_desk.Client.{
  Client, MouseEvent, move, down, up, scroll, other, unwrap_or, mouse_payload, key_payload, send,
}

-- A host whose stream holds the bytes, and a client, both without a Noise channel.
abbrev pub host_at : {S : Type 0} → Host S → Wire → List ℕ → Host S
host_at h w bytes = record h { link = plain (record w { incoming = bytes }); running = true }

abbrev pub client_at : {S : Type 0} → Client S → Wire → Client S
client_at c w = record c { link = plain w }

-- The client after it has sent the bytes.
abbrev pub after_sending : {S : Type 0} → Client S → Wire → List ℕ → Client S
after_sending c w bytes = client_at c (record w { sent = w.sent ++ bytes })

-- The event that a mouse message is to cause.
abbrev pub mouse_event : ℕ → ℕ → MouseEvent → Option ℕ → Option InputEvent
mouse_event x y move button = some (move_mouse x y)
mouse_event x y down button = some (mouse_button (unwrap_or button 0) true x y)
mouse_event x y up button = some (mouse_button (unwrap_or button 0) false x y)
mouse_event x y scroll button = some (mouse_scroll x y)
mouse_event x y other button = none

abbrev pub option_bind : {A B : Type 0} → Option A → (A → Option B) → Option B
option_bind none f = none
option_bind (some a) f = f a

pub input_event-mouse_payload :
    (x y : ℕ) (e : MouseEvent) (button : Option ℕ)
    → x < 2 ^ 32
    → y < 2 ^ 32
    → option_bind (mouse_payload x y e button) input_event ≡ mouse_event x y e button
unfolding input_event mouse_payload
input_event-mouse_payload x y move button hx hy =
    rw (from_le32-bytes x hx, from_le32-bytes y hy) refl
input_event-mouse_payload x y down button hx hy =
    rw (from_le32-bytes x hx, from_le32-bytes y hy) refl
input_event-mouse_payload x y up button hx hy = rw (from_le32-bytes x hx, from_le32-bytes y hy) refl
input_event-mouse_payload x y scroll button hx hy =
    rw (from_le32-bytes x hx, from_le32-bytes y hy) refl
input_event-mouse_payload x y other button hx hy = refl

pub input_event-key_payload :
    (key : ℕ) (pressed : Bool)
    → key < 65536
    → input_event (key_payload key pressed) ≡ some (key_event key pressed)
unfolding input_event key_payload
input_event-key_payload key true h = ap (λ k. some (key_event k true)) (from_le16-bytes key h)
input_event-key_payload key false h = ap (λ k. some (key_event k false)) (from_le16-bytes key h)

module _ {N S : Type 0} (n : Noise N S) where
  pub send-plain :
      (f : Frame) (c : Client S) (w : Wire)
      → w.writable ≡ true
      → send n f (client_at c w) ≡ done tt (after_sending c w (frame_bytes f))
  unfolding send
  send-plain f c w h =
      ap
        (λ (r : Run (Link S) (Unit {0})). elim r [
          | done a l ↦ done a (record c { link = l })
          | failed e l ↦ failed e (record c { link = l })
          | panicked ↦ panicked
        ])
        (write_frame-plain n f w h)

  pub on_link-done :
      {A : Type 0} (m : Act (Link S) A) (h : Host S) {a : A} {l : Link S}
      → m h.link ≡ done a l
      → on_link m h ≡ done a (record h { link = l })
  on_link-done {A = A} m h e =
      ap
        (λ (r : Run (Link S) A). elim r [
          | done a l ↦ done a (record h { link = l })
          | failed e l ↦ failed e (record h { link = l })
          | panicked ↦ panicked
        ])
        e

  -- The frame at the front of the stream is read and handed on.
  pub run_once-frame_bytes :
      (env : Env) (f : Frame) (h : Host S) (w : Wire) (rest : List ℕ)
      → FitsHeader f
      → run_once n env (host_at h w (frame_bytes f ++ rest)) ≡ dispatch n env f (host_at h w rest)
  unfolding run_once
  run_once-frame_bytes env f h w rest fits =
      ap (λ r. continue_with r (dispatch n env))
        (on_link-done (read_frame n) (host_at h w (frame_bytes f ++ rest))
          (read_frame-plain n f rest w fits))
