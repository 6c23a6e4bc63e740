-- ===== src/Transport/Tests.antt =====
-- Runs of the stream code of app/src-tauri/src/transport.rs, and its theorems at concrete frames.
use secure_desk.Base.{◌≡◌, refl, true, [], ◌∷◌, ◌++◌, arith}
use secure_desk.Base.Outcome.{ok, err}
use secure_desk.Protocol.{input, control, Frame, frame}
use secure_desk.Transport.{Wire, read_frame, unexpected_eof}
use secure_desk.Transport.Stream.{write_frames, read_frames, read_frames-write_frames}

abbrev idle : Wire
idle = record { incoming = []; sent = []; writable = true }

abbrev key : Frame
key = frame input (4 ∷ 65 ∷ 0 ∷ 0 ∷ [])

abbrev ending : Frame
ending = frame control (4 ∷ [])

cut_header : read_frame (record idle { incoming = 1 ∷ 0 ∷ [] }) ≡ err unexpected_eof
unfolding read_frame
cut_header = refl

read_frames-write_frames_example :
    (w' : Wire) × (write_frames (key ∷ ending ∷ []) idle ≡ ok w')
    × (read_frames 2 (record idle { incoming = w'.sent ++ [] })
        ≡ ok (key ∷ ending ∷ [], record idle { incoming = [] }))
read_frames-write_frames_example =
    read_frames-write_frames (key ∷ ending ∷ []) idle idle [] refl refl (omega arith)
