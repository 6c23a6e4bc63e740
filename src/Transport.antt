-- ===== src/Transport.antt =====
-- app/src-tauri/src/transport.rs: frames on a byte stream. `RelayTransport`, `P2PTransport` and the
-- helpers of app/src-tauri/src/client.rs read and write them by the same code.
pub mod Stream
pub mod PeerInfo
mod Tests
use secure_desk.Base.{
  ℕ, ◌≡◌, Bool, true, false, List, [], ◌∷◌, ◌++◌, leb, if◌then◌else◌, length, take, drop,
}
use secure_desk.Base.Outcome.{Outcome, ok, err, panic, ◌>>=◌, at}
use secure_desk.Base.Words.{be24}
use secure_desk.Protocol.{Channel, Frame, frame, header, channel_try_from}
use secure_desk.Protocol

pub data ConnectionType : Type 0 where
  relay p2p : ConnectionType

-- A socket: the bytes that will still arrive before it closes, those sent, and whether it takes more.
pub record Wire : Type 0 where
  pub incoming : List ℕ
  pub sent : List ℕ
  pub writable : Bool

pub data Error : Type 0 where
  unexpected_eof broken_pipe : Error
  bad_frame : Protocol.Error → Error

-- `stream.read_exact`
unfoldable pub read_exact : ℕ → Wire → Outcome Error (List ℕ × Wire)
read_exact n w =
    if leb n (length w.incoming)
    then ok (take n w.incoming, record w { incoming = drop n w.incoming })
    else err unexpected_eof

-- `stream.write_all`
unfoldable pub write_all : List ℕ → Wire → Outcome Error Wire
write_all bytes w = if w.writable then ok (record w { sent = w.sent ++ bytes }) else err broken_pipe

-- `?` on the error of `Channel::try_from`
abbrev pub or_bad_frame {ℓ} : {A : Type ℓ} → Outcome Protocol.Error A → Outcome Error A
or_bad_frame (ok a) = ok a
or_bad_frame (err e) = err (bad_frame e)
or_bad_frame panic = panic

-- The channel and the length in the four bytes of a header.
unfoldable pub read_header : List ℕ → Outcome Error (Channel × ℕ)
read_header head = do
  code ← at head 0
  channel ← or_bad_frame (channel_try_from code)
  high ← at head 1
  middle ← at head 2
  low ← at head 3
  ok (channel, be24 high middle low)

unfoldable pub read_frame : Wire → Outcome Error (Frame × Wire)
unfolding read_exact read_header
read_frame w = do
  (head, w') ← read_exact 4 w
  (channel, len) ← read_header head
  (payload, w'') ← read_exact len w'
  ok (frame channel payload, w'')

unfoldable pub write_frame : Frame → Wire → Outcome Error Wire
unfolding write_all
write_frame f w = do w' ← write_all (header f.channel (length f.payload)) w; write_all f.payload w'
