-- ===== src/Host/Handlers.antt =====
-- app/src-tauri/src/host.rs: the handlers of the input, privacy, video and clipboard channels.
use secure_desk.Base.{
  ℕ, ◌+◌, Bool, not, ◌&&◌, ◌||◌, Option, none, some, List, [], ◌∷◌, ◌++◌, leb, ◌==◌, if◌then◌else◌,
  length, is_empty, get_or,
}
use secure_desk.Base.Outcome.{ok, err, panic}
use secure_desk.Base.Words.{from_le16, from_le32, to_le16, to_le64}
use secure_desk.Protocol.{Frame, frame, privacy, video_frame, clipboard_frame}
use secure_desk.Protocol.Input as Msg
use secure_desk.Protocol.Privacy as Cmd
use secure_desk.Protocol.Clipboard as Clip
use secure_desk.Clipboard.{new_manager, get_clipboard, encode, decode, type_name}
use secure_desk.Privacy.{enable_black_screen, disable_black_screen, block_input, unblock_input}
use secure_desk.Session.{
  Act, done, failed, panicked, Noise, ret, fail, get, modify, ◌>>=◌, ◌>>◌, write_frame,
  inject_failed, capture_failed,
}
use secure_desk.Host.{
  Host, Env, InputEvent, move_mouse, mouse_button, mouse_scroll, key_event, UiEvent,
  clipboard_received, on_link, succeeded, refused, crashed,
}

-- `i32::from_le_bytes(payload[i..i + 4])` and the like, behind a check of the length.
abbrev pub i32_at : List ℕ → ℕ → ℕ
i32_at p i = from_le32 (get_or p i 0) (get_or p (i + 1) 0) (get_or p (i + 2) 0) (get_or p (i + 3) 0)

abbrev pub u16_at : List ℕ → ℕ → ℕ
u16_at p i = from_le16 (get_or p i 0) (get_or p (i + 1) 0)

-- The event in an input message, if it is one and is long enough.
unfoldable pub input_event : List ℕ → Option InputEvent
input_event [] = none
input_event (kind ∷ rest) =
    let p = kind ∷ rest in
    if kind == Msg.mouse_move
    then (if leb 9 (length p) then some (move_mouse (i32_at p 1) (i32_at p 5)) else none)
    else if kind == Msg.mouse_button
    then (if leb 11 (length p)
        then some (mouse_button (get_or p 1 0) (not (get_or p 2 0 == 0)) (i32_at p 3) (i32_at p 7))
        else none)
    else if kind == Msg.mouse_scroll
    then (if leb 9 (length p) then some (mouse_scroll (i32_at p 1) (i32_at p 5)) else none)
    else if (kind == Msg.key_down) || (kind == Msg.key_up)
    then (if leb 4 (length p) then some (key_event (u16_at p 1) (kind == Msg.key_down)) else none)
    else none

module _ {S : Type 0} where
  abbrev pub emit : Env → UiEvent → Act (Host S) (Unit {0})
  emit env e =
      modify λ h. record h { emitted = if env.app_handle then h.emitted ++ (e ∷ []) else h.emitted }

  -- A call of the injector.
  abbrev pub inject : Env → InputEvent → Act (Host S) (Unit {0})
  inject env e h = elim (env.injects e) [
    | succeeded ↦ done tt (record h { injected = h.injected ++ (e ∷ []) })
    | refused ↦ failed inject_failed h
    | crashed ↦ panicked
  ]

  unfoldable pub handle_input : Env → Frame → Act (Host S) (Unit {0})
  unfolding input_event
  handle_input env f = elim (input_event f.payload) [ none ↦ ret tt | some e ↦ inject env e ]

  -- The command on the flags; another number is acknowledged and does nothing.
  unfoldable pub privacy_command : ℕ → Host S → Host S
  unfolding enable_black_screen disable_black_screen block_input unblock_input
  privacy_command cmd h =
      if cmd == Cmd.black_screen_on
      then record h { privacy = enable_black_screen h.privacy }
      else if cmd == Cmd.black_screen_off
      then record h { privacy = disable_black_screen h.privacy }
      else if cmd == Cmd.input_block_on
      then record h { privacy = block_input h.privacy }
      else if cmd == Cmd.input_block_off
      then record h { privacy = unblock_input h.privacy }
      else h

-- `b as u8`
abbrev pub bool_as_u8 : Bool → ℕ
bool_as_u8 b = if b then 1 else 0

-- `width as u16`, `height as u16` and an empty time stamp in front of the picture.
unfoldable pub video_payload : ℕ → ℕ → List ℕ → List ℕ
video_payload width height bytes =
    0x01 ∷ (to_le16 width ++ (to_le16 height ++ (to_le64 0 ++ bytes)))

module _ {N S : Type 0} (n : Noise N S) where
  abbrev pub status_of : Host S → Frame
  status_of h =
      frame privacy (
        Cmd.status_ack
        ∷ bool_as_u8 h.privacy.black_screen
        ∷ bool_as_u8 h.privacy.input_blocked
        ∷ [])

  unfoldable pub handle_privacy : Frame → Act (Host S) (Unit {0})
  unfolding write_frame privacy_command
  handle_privacy f = elim f.payload [
    | [] ↦ ret tt
    | cmd ∷ rest ↦ (do
      modify (privacy_command cmd)
      status ← get status_of
      on_link (write_frame n status))
  ]

  unfoldable pub send_video_frame : Env → Act (Host S) (Unit {0})
  unfolding write_frame video_payload
  send_video_frame env = elim env.screen [
    | err e ↦ fail capture_failed
    | ok picture ↦
        on_link (write_frame n (video_frame (video_payload picture.0 picture.1 picture.2)))
    | panic ↦ (λ h. panicked)
  ]

  -- Both branches work on a manager made for the message, whose content is gone after it.
  unfoldable pub handle_clipboard : Env → Frame → Act (Host S) (Unit {0})
  unfolding write_frame new_manager get_clipboard encode decode
  handle_clipboard env f = elim f.payload [
    | [] ↦ ret tt
    | kind ∷ rest ↦
        (if kind == Clip.clipboard_request
          then elim (get_clipboard new_manager) [
            | none ↦ ret tt
            | some c ↦ on_link (write_frame n (clipboard_frame Clip.clipboard_data (encode c)))
          ]
          else if (kind == Clip.clipboard_data) && not (is_empty rest)
          then elim (decode rest) [
            | ok c ↦ emit env (clipboard_received (type_name c))
            | err e ↦ ret tt
            | panic ↦ (λ h. panicked)
          ]
          else ret tt)
  ]
