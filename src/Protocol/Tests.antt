-- ===== src/Protocol/Tests.antt =====
-- Runs of app/src-tauri/src/protocol.rs, and its theorems at concrete frames.
use secure_desk.Base.{◌%◌, ◌^◌, ◌≡◌, refl, [], ◌∷◌, ◌++◌, length, take}
use secure_desk.Base.Outcome.{ok, err}
use secure_desk.Base.Words.{be24}
use secure_desk.Protocol.{
  clipboard, Frame, frame, control_frame, to_bytes, from_bytes, incomplete, invalid_channel,
  parse_header, channel_try_from, frame_of,
}
use secure_desk.Protocol.Control.{keepalive}
use secure_desk.Protocol.RoundTrip.{from_bytes-to_bytes}

abbrev ping : Frame
ping = control_frame keepalive (7 ∷ [])

ping_bytes : to_bytes ping ≡ 0 ∷ 0 ∷ 0 ∷ 2 ∷ 5 ∷ 7 ∷ []
unfolding to_bytes
ping_bytes = refl

bad_channel : from_bytes (9 ∷ 0 ∷ 0 ∷ 0 ∷ []) ≡ err (invalid_channel 9)
unfolding from_bytes parse_header channel_try_from frame_of be24
bad_channel = refl

cut_frame : from_bytes (1 ∷ 0 ∷ 0 ∷ 3 ∷ 8 ∷ []) ≡ err incomplete
unfolding from_bytes parse_header channel_try_from frame_of be24
cut_frame = refl

from_bytes-to_bytes_example :
    from_bytes (to_bytes ping ++ 1 ∷ 2 ∷ [])
    ≡ ok (frame ping.channel (take (length ping.payload % 2 ^ 24) ping.payload))
from_bytes-to_bytes_example = from_bytes-to_bytes ping (1 ∷ 2 ∷ [])

copied : from_bytes (3 ∷ 0 ∷ 0 ∷ 1 ∷ 4 ∷ 8 ∷ []) ≡ ok (frame clipboard (4 ∷ []))
unfolding from_bytes parse_header channel_try_from frame_of be24
copied = refl
