-- ===== src/Protocol/Parse.antt =====
-- app/src-tauri/src/protocol.rs: what `Frame::from_bytes` does on bytes from anywhere.
use secure_desk.Base.{
  ℕ, ◌≤◌, ◌≡◌, List, [], ◌∷◌, ◌++◌, arith, length, take, drop, le→ltb, ap, sym, ◌∙◌,
  take-append-drop, length-take,
}
use secure_desk.Base.Outcome.{ok, Returns, Returns-bind, >>=-eq-ok}
use secure_desk.Base.Words.{be24, be24-eq_sum, IsByte, IsBytes}
use secure_desk.Protocol.{
  parse_header, frame_of, Channel, channel_code, channel_try_from, Frame, frame, header, to_bytes,
  from_bytes,
}

channel_try_from-Returns : (v : ℕ) → Returns (channel_try_from v)
unfolding channel_try_from
channel_try_from-Returns v = ground arith

-- Only a channel's own number is read as that channel.
channel_try_from_sound : (v : ℕ) {c : Channel} → channel_try_from v ≡ ok c → v ≡ channel_code c
unfolding channel_try_from
channel_try_from_sound v {c} h = ground arith

frame_of-Returns : (c : Channel) (len : ℕ) (bytes : List ℕ) → Returns (frame_of c len bytes)
unfolding frame_of
frame_of-Returns c len bytes = ground arith

-- No input makes `from_bytes` panic: it gives a frame or an error.
pub from_bytes-Returns : (bytes : List ℕ) → Returns (from_bytes bytes)
unfolding from_bytes parse_header
from_bytes-Returns [] = tt
from_bytes-Returns (a ∷ []) = tt
from_bytes-Returns (a ∷ b ∷ []) = tt
from_bytes-Returns (a ∷ b ∷ c ∷ []) = tt
from_bytes-Returns (a ∷ b ∷ c ∷ d ∷ rest) =
    rw (le→ltb (length (a ∷ b ∷ c ∷ d ∷ rest)) 4 (omega arith)) (
      Returns-bind (parse_header (a ∷ b ∷ c ∷ d ∷ rest)) _
        (Returns-bind (channel_try_from a) _ (channel_try_from-Returns a) (λ ch. tt))
        (λ p. frame_of-Returns p.0 p.1 _))

-- An accepted frame is the bytes behind the header, as many as the header says.
frame_of-eq-ok :
    (c : Channel) (len a b d e : ℕ) (rest : List ℕ) {f : Frame}
    → frame_of c len (a ∷ b ∷ d ∷ e ∷ rest) ≡ ok f
    → (len ≤ length rest) × (f ≡ frame c (take len rest))
unfolding frame_of
frame_of-eq-ok c len a b d e rest h = ground arith

-- The header that a frame writes for the length that its three length bytes give.
header-be24 :
    (c : Channel) (x y z : ℕ)
    → IsByte x
    → IsByte y
    → IsByte z
    → header c (be24 x y z) ≡ channel_code c ∷ x ∷ y ∷ z ∷ []
header-be24 c x y z hx hy hz = rw (be24-eq_sum x y z hy hz) (ground arith)

parse_header-eq-ok :
    (a b c d : ℕ) (rest : List ℕ) {ch : Channel} {len : ℕ}
    → parse_header (a ∷ b ∷ c ∷ d ∷ rest) ≡ ok (ch, len)
    → (a ≡ channel_code ch) × (len ≡ be24 b c d)
unfolding parse_header
parse_header-eq-ok a b c d rest h =
    let (x, e, q) = >>=-eq-ok (channel_try_from a) _ h in
    ground (arith, channel_try_from_sound a e, q)

from_bytes-eq-ok :
    (a b c d : ℕ) (rest : List ℕ) {f : Frame}
    → from_bytes (a ∷ b ∷ c ∷ d ∷ rest) ≡ ok f
    → (a ≡ channel_code f.channel)
      × (be24 b c d ≤ length rest)
      × (f.payload ≡ take (be24 b c d) rest)
unfolding from_bytes
from_bytes-eq-ok a b c d rest {f} e =
    let opened = rw (le→ltb (length (a ∷ b ∷ c ∷ d ∷ rest)) 4 (omega arith)) at e in
    let (p, hp, hf) = >>=-eq-ok (parse_header (a ∷ b ∷ c ∷ d ∷ rest)) _ opened in
    let read = parse_header-eq-ok a b c d rest {ch = p.0} {len = p.1} hp in
    let (fits, made) = frame_of-eq-ok p.0 p.1 a b c d rest hf in ground arith

-- The bytes behind the header, put together again.
to_bytes-split :
    (b c d : ℕ) (rest : List ℕ) (f : Frame)
    → IsByte b
    → IsByte c
    → IsByte d
    → be24 b c d ≤ length rest
    → f.payload ≡ take (be24 b c d) rest
    → channel_code f.channel ∷ b ∷ c ∷ d ∷ rest ≡ to_bytes f ++ drop (be24 b c d) rest
unfolding to_bytes
to_bytes-split b c d rest f hb hc hd fits payload =
    let size : length f.payload ≡ be24 b c d =
      ap length payload ∙ omega (arith, length-take (be24 b c d) rest) in
    sym (
      ap (λ (n : ℕ). (header f.channel n ++ f.payload) ++ drop (be24 b c d) rest) size
      ∙ ap (λ h. (h ++ f.payload) ++ drop (be24 b c d) rest) (header-be24 f.channel b c d hb hc hd)
      ∙ ap (λ r. channel_code f.channel ∷ b ∷ c ∷ d ∷ r)
          (ap (λ q. q ++ drop (be24 b c d) rest) payload ∙ take-append-drop (be24 b c d) rest))

-- What `from_bytes` accepts begins with the bytes of the frame that it gives.
pub from_bytes_sound :
    (bytes : List ℕ) {f : Frame}
    → IsBytes bytes
    → from_bytes bytes ≡ ok f
    → (rest : List ℕ) × (bytes ≡ to_bytes f ++ rest)
unfolding from_bytes
from_bytes_sound [] h e = cc
from_bytes_sound (a ∷ []) h e = cc
from_bytes_sound (a ∷ b ∷ []) h e = cc
from_bytes_sound (a ∷ b ∷ c ∷ []) h e = cc
from_bytes_sound (a ∷ b ∷ c ∷ d ∷ rest) {f} h e =
    let n = be24 b c d in
    let (code, fits, payload) = from_bytes-eq-ok a b c d rest e in
    (
      drop n rest,
      ap (λ (x : ℕ). x ∷ b ∷ c ∷ d ∷ rest) code
          ∙ to_bytes-split b c d rest f h.1.0 h.1.1.0 h.1.1.1.0 fits payload,
    )
