-- ===== src/Session/Links.antt =====
-- app/src-tauri/src/host.rs and app/src-tauri/src/client.rs: reading and writing frames on a link, and rules
-- for what every step keeps.
use secure_desk.Base.{
  ℕ, ◌%◌, ◌^◌, ◌≡◌, refl, Bool, true, false, none, some, List, ◌++◌, arith, length, if◌then◌else◌,
  append_assoc, ◌∙◌, length-append, take-length_append, drop-length_append,
}
use secure_desk.Base.Outcome.{ok}
use secure_desk.Protocol.{Frame, header}
use secure_desk.Transport.{Wire, read_exact, write_all}
use secure_desk.Transport.Stream.{
  frame_bytes, FitsHeader, read_exact-header, read_header-header, read_exact-le,
}
use secure_desk.Session.{
  Run, done, failed, panicked, Act, Noise, Link, continue_with, ◌>>=◌, read_bytes, write_bytes,
  read_frame, write_frame,
}

-- A link with no Noise channel.
abbrev pub plain : {S : Type 0} → Wire → Link S
plain w = record { stream = some w; channel = none }

module _ {H S : Type 0} (n : Noise H S) where
  -- Without a channel a frame is written as it is.
  pub write_frame-plain :
      (f : Frame) (w : Wire)
      → w.writable ≡ true
      → write_frame n f (plain w) ≡ done tt (plain (record w { sent = w.sent ++ frame_bytes f }))
  unfolding write_frame write_bytes write_all
  write_frame-plain f w h =
      rw (h, append_assoc w.sent (header f.channel (length f.payload)) f.payload) refl

  pub read_bytes-ok :
      (count : ℕ) (w w' : Wire) (bytes : List ℕ)
      → read_exact count w ≡ ok (bytes, w')
      → read_bytes n count (plain w) ≡ done bytes (plain w')
  unfolding read_bytes
  read_bytes-ok count w w' bytes h = rw (read_bytes, h) refl

  pub read_exact-payload :
      (f : Frame) (rest : List ℕ) (w : Wire)
      → read_exact (length f.payload) (record w { incoming = f.payload ++ rest })
        ≡ ok (f.payload, record w { incoming = rest })
  read_exact-payload f rest w =
      let len = length f.payload in
      read_exact-le len (record w { incoming = f.payload ++ rest })
        (omega (arith, length-append f.payload rest))
      ∙ rw (take-length_append f.payload rest, drop-length_append f.payload rest) refl

  -- Without a channel a frame that arrives is read as it is.
  pub read_frame-plain :
      (f : Frame) (rest : List ℕ) (w : Wire)
      → FitsHeader f
      → read_frame n (plain (record w { incoming = frame_bytes f ++ rest }))
        ≡ done f (plain (record w { incoming = rest }))
  unfolding read_frame
  read_frame-plain f rest w h =
      let len = length f.payload in
      let behind = record w { incoming = f.payload ++ rest } in
      let whole : len % 2 ^ 24 ≡ len = omega arith in
      rw
        (
          read_bytes-ok 4 (record w { incoming = frame_bytes f ++ rest }) behind
              (header f.channel len) (read_exact-header f.channel len (f.payload ++ rest) w),
          read_header-header f.channel len,
          whole,
          read_bytes-ok len behind (record w { incoming = rest }) f.payload
              (read_exact-payload f rest w),
        )
        refl

-- What holds of the state that a step leaves, whether it was done or it failed.
abbrev pub Leaves : {S A : Type 0} → (S → Type 0) → Run S A → Type 0
Leaves P (done a s) = P s
Leaves P (failed e s) = P s
Leaves P panicked = Unit

-- Every state in which it holds is left with it.
abbrev pub Keeps : {S A : Type 0} → (S → Type 0) → Act S A → Type 0
Keeps {S} P m = (s : S) → P s → Leaves P (m s)

module _ {S A B : Type 0} where
  Leaves-continue_with :
      (P : S → Type 0) (r : Run S A) (f : A → Act S B)
      → Leaves P r
      → ((a : A) → Keeps P (f a))
      → Leaves P (continue_with r f)
  Leaves-continue_with P (done a s) f h k = k a s h
  Leaves-continue_with P (failed e s) f h k = h
  Leaves-continue_with P panicked f h k = tt

  pub Keeps->>= :
      (P : S → Type 0) (m : Act S A) (f : A → Act S B)
      → Keeps P m
      → ((a : A) → Keeps P (f a))
      → Keeps P (m >>= f)
  Keeps->>= P m f h k s p = Leaves-continue_with P (m s) f (h s p) k

module _ {S A : Type 0} where
  pub Leaves-if :
      (P : S → Type 0) (b : Bool) (r r' : Run S A)
      → Leaves P r
      → Leaves P r'
      → Leaves P (if b then r else r')
  Leaves-if P true r r' h k = h
  Leaves-if P false r r' h k = k

  pub Keeps-if :
      (P : S → Type 0) (b : Bool) (m m' : Act S A)
      → Keeps P m
      → Keeps P m'
      → Keeps P (if b then m else m')
  Keeps-if P true m m' h k = h
  Keeps-if P false m m' h k = k

-- The step does not end the program.
abbrev pub GoesOn : {S A : Type 0} → Run S A → Type 0
GoesOn (done a s) = Unit
GoesOn (failed e s) = Unit
GoesOn panicked = ⊥

module _ {S A B : Type 0} where
  GoesOn-continue_with :
      (r : Run S A) (f : A → Act S B)
      → GoesOn r
      → ((a : A) (s : S) → GoesOn (f a s))
      → GoesOn (continue_with r f)
  GoesOn-continue_with (done a s) f h k = k a s
  GoesOn-continue_with (failed e s) f h k = tt
  GoesOn-continue_with panicked f h k = h

  pub GoesOn->>= :
      (m : Act S A) (f : A → Act S B)
      → ((s : S) → GoesOn (m s))
      → ((a : A) (s : S) → GoesOn (f a s))
      → (s : S) → GoesOn ((m >>= f) s)
  GoesOn->>= m f h k s = GoesOn-continue_with (m s) f (h s) k

module _ {S A : Type 0} where
  pub GoesOn-if :
      (b : Bool) (m m' : Act S A)
      → ((s : S) → GoesOn (m s))
      → ((s : S) → GoesOn (m' s))
      → (s : S) → GoesOn ((if b then m else m') s)
  GoesOn-if true m m' h k = h
  GoesOn-if false m m' h k = k
