-- ===== src/Client.antt =====
-- app/src-tauri/src/client.rs: the messages that a client session sends, and the picture it asks for.
pub mod Remote
pub mod Effects
pub mod Requests
pub mod Connect
pub mod Relay
pub mod Tests
use secure_desk.Base.{
  ℕ, ◌+◌, ◌≡◌, Bool, true, false, not, Option, none, some, List, [], ◌∷◌, ◌++◌, leb, ltb, ◌==◌,
  if◌then◌else◌, length, drop,
}
use secure_desk.Base.Words.{to_le16, to_le32}
use secure_desk.Protocol.{
  channel_code, Frame, frame, video, control_frame, input_frame, privacy_frame, clipboard_frame,
}
use secure_desk.Protocol.Control as Msg
use secure_desk.Protocol.Input as In
use secure_desk.Protocol.Privacy as Cmd
use secure_desk.Protocol.Clipboard as Clip
use secure_desk.Transport.{Wire, ConnectionType}
use secure_desk.Session.{
  Act, Run, done, failed, panicked, Noise, Link, ret, ◌>>=◌, ◌>>◌, read_frame, write_frame,
}
use secure_desk.Host.Handlers.{u16_at}

pub record Client (S : Type 0) : Type 0 where
  pub link : Link S
  pub p2p_stream : Option Wire
  pub remote_id : List ℕ
  pub connection_type : ConnectionType

abbrev pub on_client : {S A : Type 0} → Act (Link S) A → Act (Client S) A
on_client m c = elim (m c.link) [
  | done a l ↦ done a (record c { link = l })
  | failed e l ↦ failed e (record c { link = l })
  | panicked ↦ panicked
]

abbrev pub unwrap_or : Option ℕ → ℕ → ℕ
unwrap_or none d = d
unwrap_or (some n) d = n

-- The four texts of `event_type`, and any other
pub data MouseEvent : Type 0 where
  move down up scroll other : MouseEvent

unfoldable pub mouse_payload : ℕ → ℕ → MouseEvent → Option ℕ → Option (List ℕ)
mouse_payload x y move button = some (In.mouse_move ∷ (to_le32 x ++ to_le32 y))
mouse_payload x y down button =
    some (In.mouse_button ∷ unwrap_or button 0 ∷ 1 ∷ (to_le32 x ++ to_le32 y))
mouse_payload x y up button =
    some (In.mouse_button ∷ unwrap_or button 0 ∷ 0 ∷ (to_le32 x ++ to_le32 y))
mouse_payload x y scroll button = some (In.mouse_scroll ∷ (to_le32 x ++ to_le32 y))
mouse_payload x y other button = none

unfoldable pub key_payload : ℕ → Bool → List ℕ
key_payload key_code pressed =
    (if pressed then In.key_down else In.key_up) ∷ (to_le16 key_code ++ (0 ∷ []))

-- The picture in a frame, if it is one and has its 13 bytes of header.
unfoldable pub picture_of : Frame → Option (ℕ × ℕ × List ℕ)
picture_of f =
    if not (channel_code f.channel == channel_code video)
    then none
    else if ltb (length f.payload) 13
    then none
    else some (u16_at f.payload 1, u16_at f.payload 3, drop 13 f.payload)

module _ {N S : Type 0} (n : Noise N S) where
  unfoldable pub send : Frame → Act (Client S) (Unit {0})
  unfolding write_frame
  send f = on_client (write_frame n f)

  unfoldable pub receive : Act (Client S) Frame
  unfolding read_frame
  receive = on_client (read_frame n)

  unfoldable pub set_black_screen : Bool → Act (Client S) (Unit {0})
  unfolding send
  set_black_screen enabled =
      send (privacy_frame (if enabled then Cmd.black_screen_on else Cmd.black_screen_off))

  unfoldable pub set_input_block : Bool → Act (Client S) (Unit {0})
  unfolding send
  set_input_block enabled =
      send (privacy_frame (if enabled then Cmd.input_block_on else Cmd.input_block_off))

  unfoldable pub send_mouse : ℕ → ℕ → MouseEvent → Option ℕ → Act (Client S) (Unit {0})
  unfolding send mouse_payload
  send_mouse x y event_type button = elim (mouse_payload x y event_type button) [
    | none ↦ ret tt
    | some payload ↦ send (input_frame payload)
  ]

  unfoldable pub send_key : ℕ → Bool → Act (Client S) (Unit {0})
  unfolding send key_payload
  send_key key_code pressed = send (input_frame (key_payload key_code pressed))

  unfoldable pub send_resolution : ℕ → ℕ → Act (Client S) (Unit {0})
  unfolding send
  send_resolution width height =
      send (control_frame Msg.resolution (to_le16 width ++ to_le16 height))

  unfoldable pub request_frame : Act (Client S) (Unit {0})
  unfolding send
  request_frame = send (frame video (0x03 ∷ []))

  unfoldable pub request_and_receive_frame : Act (Client S) (Option (ℕ × ℕ × List ℕ))
  unfolding request_frame receive picture_of
  request_and_receive_frame = do request_frame; f ← on_client (read_frame n); ret (picture_of f)

  unfoldable pub send_clipboard : List ℕ → Act (Client S) (Unit {0})
  unfolding send
  send_clipboard bytes = send (clipboard_frame Clip.clipboard_data bytes)

  unfoldable pub request_clipboard : Act (Client S) (Unit {0})
  unfolding send
  request_clipboard = send (clipboard_frame Clip.clipboard_request [])

  -- The session is gone after it; the stream is closed.
  unfoldable pub disconnect : Act (Client S) (Unit {0})
  unfolding send
  disconnect = do
    send (control_frame Msg.session_end [])
    λ c. done tt (record c { link = record c.link { stream = none } })
