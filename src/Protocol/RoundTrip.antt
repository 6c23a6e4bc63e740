-- ===== src/Protocol/RoundTrip.antt =====
-- app/src-tauri/src/protocol.rs: `Frame::from_bytes` reads back what `Frame::to_bytes` writes.
use secure_desk.Base.{
  ℕ, ◌%◌, ◌^◌, ◌≤◌, ◌<◌, ◌≡◌, refl, List, ◌∷◌, ◌++◌, arith, length, take, length-append,
  take-append_le, le→ltb, ap, ◌∙◌,
}
use secure_desk.Base.Outcome.{ok}
use secure_desk.Base.Words.{be24_bytes}
use secure_desk.Protocol.{
  parse_header, frame_of, Channel, control, video, input, clipboard, file, privacy, channel_code,
  channel_try_from, Frame, frame, header, to_bytes, from_bytes,
}

-- Every channel's number is read back as the channel.
pub channel_try_from-channel_code : (c : Channel) → channel_try_from (channel_code c) ≡ ok c
unfolding channel_try_from
channel_try_from-channel_code control = refl
channel_try_from-channel_code video = refl
channel_try_from-channel_code input = refl
channel_try_from-channel_code clipboard = refl
channel_try_from-channel_code file = refl
channel_try_from-channel_code privacy = refl

parse_header-header :
    (c : Channel) (n : ℕ) (rest : List ℕ) → parse_header (header c n ++ rest) ≡ ok (c, n % 2 ^ 24)
unfolding parse_header
parse_header-header c n rest = rw (channel_try_from-channel_code c, be24_bytes n)

-- A payload of at least the header's length, below 2 ^ 24, is cut to that length.
frame_of-le :
    (c : Channel) (len : ℕ) (a b d e : ℕ) (rest : List ℕ)
    → len < 2 ^ 24
    → len ≤ length rest
    → frame_of c len (a ∷ b ∷ d ∷ e ∷ rest) ≡ ok (frame c (take len rest))
unfolding frame_of
frame_of-le c len a b d e rest small fits = ground arith

-- A frame's bytes, whatever follows them, are parsed as a frame of the same channel with the first
-- (length mod 2 ^ 24) bytes of the payload.
pub from_bytes-to_bytes :
    (f : Frame) (rest : List ℕ)
    → from_bytes (to_bytes f ++ rest)
      ≡ ok (frame f.channel (take (length f.payload % 2 ^ 24) f.payload))
unfolding from_bytes to_bytes
from_bytes-to_bytes f rest =
    let n = length f.payload in
    rw
      (
        le→ltb (length (to_bytes f ++ rest)) 4 (omega arith),
        parse_header-header f.channel n (f.payload ++ rest),
      )
      (frame_of-le f.channel (n % 2 ^ 24) _ _ _ _ (f.payload ++ rest) (omega arith)
          (omega (arith, length-append f.payload rest))
        ∙ ap (λ p. ok (frame f.channel p))
            (take-append_le (n % 2 ^ 24) f.payload rest (omega arith)))
