-- ===== src/Protocol.antt =====
-- app/src-tauri/src/protocol.rs: channels, frames and the numbers of the message types.
mod Tests
pub mod Control
pub mod Input
pub mod Privacy
pub mod Clipboard
pub mod File
pub mod RoundTrip
pub mod Parse
use secure_desk.Base.{
  ℕ, ◌+◌, ◌*◌, ◌≡◌, Bool, true, false, List, [], ◌∷◌, ◌++◌, ltb, ◌==◌, if◌then◌else◌, length,
}
use secure_desk.Base.Outcome.{Outcome, ok, err, panic, ◌>>=◌, at, slice}
use secure_desk.Base.Words.{as_u8, shr, be24}

abbrev pub max_frame_size : ℕ
max_frame_size = 16 * 1024 * 1024

pub data Channel : Type 0 where
  control video input clipboard file privacy : Channel

pub data Error : Type 0 where
  invalid_channel : ℕ → Error
  too_short too_large incomplete : Error

-- `channel as u8`
abbrev pub channel_code : Channel → ℕ
channel_code control = 0x00
channel_code video = 0x01
channel_code input = 0x02
channel_code clipboard = 0x03
channel_code file = 0x04
channel_code privacy = 0x05

unfoldable pub channel_try_from : ℕ → Outcome Error Channel
channel_try_from v =
    if v == 0x00
    then ok control
    else if v == 0x01
    then ok video
    else if v == 0x02
    then ok input
    else if v == 0x03
    then ok clipboard
    else if v == 0x04
    then ok file
    else if v == 0x05
    then ok privacy
    else err (invalid_channel v)

pub record Frame : Type 0 where
  pub channel : Channel
  pub payload : List ℕ

abbrev pub frame : Channel → List ℕ → Frame
frame c p = record { channel = c; payload = p }

-- `Frame::control`, `video`, `input`, `privacy`, `clipboard` and `file`
abbrev pub control_frame : ℕ → List ℕ → Frame
control_frame msg_type bytes = frame control (msg_type ∷ bytes)

abbrev pub video_frame : List ℕ → Frame
video_frame bytes = frame video bytes

abbrev pub input_frame : List ℕ → Frame
input_frame bytes = frame input bytes

abbrev pub privacy_frame : ℕ → Frame
privacy_frame cmd = frame privacy (cmd ∷ [])

abbrev pub clipboard_frame : ℕ → List ℕ → Frame
clipboard_frame msg_type bytes = frame clipboard (msg_type ∷ bytes)

abbrev pub file_frame : ℕ → List ℕ → Frame
file_frame msg_type bytes = frame file (msg_type ∷ bytes)

-- The channel and the length's low 24 bits; the session files write the same header.
abbrev pub header : Channel → ℕ → List ℕ
header c len = channel_code c ∷ as_u8 (shr len 16) ∷ as_u8 (shr len 8) ∷ as_u8 len ∷ []

unfoldable pub to_bytes : Frame → List ℕ
to_bytes f = header f.channel (length f.payload) ++ f.payload

-- The checks of `from_bytes` on the length that the header gives, and the payload.
unfoldable pub frame_of : Channel → ℕ → List ℕ → Outcome Error Frame
frame_of channel len bytes =
    if ltb max_frame_size len
    then err too_large
    else if ltb (length bytes) (4 + len)
    then err incomplete
    else (do payload ← slice bytes 4 (4 + len); ok (frame channel payload))

unfoldable pub parse_header : List ℕ → Outcome Error (Channel × ℕ)
parse_header bytes = do
  code ← at bytes 0
  channel ← channel_try_from code
  high ← at bytes 1
  middle ← at bytes 2
  low ← at bytes 3
  ok (channel, be24 high middle low)

unfoldable pub from_bytes : List ℕ → Outcome Error Frame
from_bytes bytes =
    if ltb (length bytes) 4
    then err too_short
    else (do (channel, len) ← parse_header bytes; frame_of channel len bytes)
