-- ===== src/Transport/Stream.antt =====
-- app/src-tauri/src/transport.rs: what one end writes is what the other end reads, frame by frame.
use secure_desk.Base.{
  ℕ, ◌%◌, ◌^◌, ◌≤◌, ◌<◌, ◌≡◌, refl, sym, subst, ap, ◌∙◌, true, List, [], ◌∷◌, ◌++◌, arith, length,
  take, drop, All, length-append, take-append_le, take-length, drop-append_le, drop-length,
  append-nil, zero, suc, append_assoc, le→leb,
}
use secure_desk.Base.Outcome.{Outcome, ok, ◌>>=◌}
use secure_desk.Base.Words.{be24_bytes}
use secure_desk.Protocol.{Channel, Frame, frame, header}
use secure_desk.Protocol.RoundTrip.{channel_try_from-channel_code}
use secure_desk.Transport.{Wire, Error, read_exact, write_all, read_header, read_frame, write_frame}

-- The bytes of a frame on the stream.
abbrev pub frame_bytes : Frame → List ℕ
frame_bytes f = header f.channel (length f.payload) ++ f.payload

-- A frame that is written leaves on the wire its header and its payload.
pub write_frame-sent :
    (f : Frame) (w : Wire)
    → w.writable ≡ true
    → write_frame f w ≡ ok (record w { sent = w.sent ++ frame_bytes f })
unfolding write_frame write_all
write_frame-sent f w h =
    ground (arith, append_assoc w.sent (header f.channel (length f.payload)) f.payload)

pub read_header-header : (c : Channel) (n : ℕ) → read_header (header c n) ≡ ok (c, n % 2 ^ 24)
unfolding read_header
read_header-header c n = rw (channel_try_from-channel_code c, be24_bytes n)

pub read_exact-le :
    (n : ℕ) (w : Wire)
    → n ≤ length w.incoming
    → read_exact n w ≡ ok (take n w.incoming, record w { incoming = drop n w.incoming })
unfolding read_exact
read_exact-le n w h = rw (le→leb n (length w.incoming) h)

-- The first read of a frame takes the four bytes of the header.
pub read_exact-header :
    (c : Channel) (n : ℕ) (rest : List ℕ) (w : Wire)
    → read_exact 4 (record w { incoming = header c n ++ rest })
      ≡ ok (header c n, record w { incoming = rest })
read_exact-header c n rest w =
    read_exact-le 4 (record w { incoming = header c n ++ rest }) (omega arith)

-- From a stream that begins with a written frame, `read_frame` gives the frame's channel and the first
-- (length mod 2 ^ 24) bytes of its payload; what it leaves begins with the rest of the payload.
pub read_frame-frame_bytes :
    (f : Frame) (rest : List ℕ) (w : Wire)
    → read_frame (record w { incoming = frame_bytes f ++ rest })
      ≡ ok (
        frame f.channel (take (length f.payload % 2 ^ 24) f.payload),
        record w { incoming = drop (length f.payload % 2 ^ 24) f.payload ++ rest },
      )
unfolding read_frame
read_frame-frame_bytes f rest w =
    let n = length f.payload in
    rw
      (
        read_exact-header f.channel n (f.payload ++ rest) w,
        read_header-header f.channel n,
        read_exact-le (n % 2 ^ 24) (record w { incoming = f.payload ++ rest })
            (omega (arith, length-append f.payload rest)),
        take-append_le (n % 2 ^ 24) f.payload rest (omega arith),
        drop-append_le (n % 2 ^ 24) f.payload rest (omega arith),
      )
      refl

-- The frames that one end writes, in order.
abbrev pub write_frames : List Frame → Wire → Outcome Error Wire
write_frames [] w = ok w
write_frames (f ∷ fs) w = write_frame f w >>= write_frames fs

-- As many frames as the other end asks for.
abbrev pub read_frames : ℕ → Wire → Outcome Error (List Frame × Wire)
read_frames zero w = ok ([], w)
read_frames (suc n) w = do (f, w') ← read_frame w; (fs, w'') ← read_frames n w'; ok (f ∷ fs, w'')

abbrev pub all_bytes : List Frame → List ℕ
all_bytes [] = []
all_bytes (f ∷ fs) = frame_bytes f ++ all_bytes fs

abbrev pub FitsHeader : Frame → Type 0
FitsHeader f = length f.payload < 2 ^ 24

write_frames-sent :
    (fs : List Frame) (w : Wire)
    → w.writable ≡ true
    → write_frames fs w ≡ ok (record w { sent = w.sent ++ all_bytes fs })
write_frames-sent [] w h = ap (λ s. ok (record w { sent = s })) (sym (append-nil w.sent))
write_frames-sent (f ∷ fs) w h =
    rw
      (write_frame-sent f w h, write_frames-sent fs (record w { sent = w.sent ++ frame_bytes f }) h)
      (ap (λ s. ok (record w { sent = s })) (append_assoc w.sent (frame_bytes f) (all_bytes fs)))

read_frame_whole :
    (f : Frame) (rest : List ℕ) (w : Wire)
    → FitsHeader f
    → read_frame (record w { incoming = frame_bytes f ++ rest })
      ≡ ok (f, record w { incoming = rest })
read_frame_whole f rest w h =
    let whole : length f.payload % 2 ^ 24 ≡ length f.payload = omega arith in
    read_frame-frame_bytes f rest w ∙ rw (whole, take-length f.payload, drop-length f.payload) refl

read_frames-all_bytes :
    (fs : List Frame) (rest : List ℕ) (w : Wire)
    → All FitsHeader fs
    → read_frames (length fs) (record w { incoming = all_bytes fs ++ rest })
      ≡ ok (fs, record w { incoming = rest })
read_frames-all_bytes [] rest w h = refl
read_frames-all_bytes (f ∷ fs) rest w h =
    rw
      (
        append_assoc (frame_bytes f) (all_bytes fs) rest,
        read_frame_whole f (all_bytes fs ++ rest) w h.0,
        read_frames-all_bytes fs rest w h.1,
      )
      refl

-- Frames written in order to a fresh socket that takes bytes, each with a payload below 2 ^ 24 bytes, are
-- all sent; a peer at which the sent bytes arrive, followed by anything, reads those frames in that order
-- and stands at what follows.
pub read_frames-write_frames :
    (fs : List Frame) (w peer : Wire) (rest : List ℕ)
    → w.writable ≡ true
    → w.sent ≡ []
    → All FitsHeader fs
    → (w' : Wire) × (write_frames fs w ≡ ok w')
      × (read_frames (length fs) (record peer { incoming = w'.sent ++ rest })
          ≡ ok (fs, record peer { incoming = rest }))
read_frames-write_frames fs w peer rest h fresh fits = (
  record w { sent = w.sent ++ all_bytes fs },
  write_frames-sent fs w h,
  subst
      (λ s.
        read_frames (length fs) (record peer { incoming = (s ++ all_bytes fs) ++ rest })
        ≡ ok (fs, record peer { incoming = rest }))
      (sym fresh) (read_frames-all_bytes fs rest peer fits),
)
