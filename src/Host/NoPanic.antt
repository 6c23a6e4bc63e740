-- ===== src/Host/NoPanic.antt =====
-- app/src-tauri/src/host.rs: reading, answering and the handshake never end the program.
use secure_desk.Base.{ℕ, ◌≡◌, refl, List, arith, length, Option-cases, inl, inr, length-take}
use secure_desk.Base.Outcome.{Outcome, ok, err, panic, Returns, Returns-bind, Returns-at}
use secure_desk.Protocol.Control.{handshake}
use secure_desk.Protocol.{Frame, frame, control_frame, channel_try_from}
use secure_desk.Transport.{Wire, read_exact, write_all, read_header, or_bad_frame}
use secure_desk.Transport as Transport
use secure_desk.Session.{
  Run, done, failed, panicked, Act, Noise, Link, continue_with, ret, ◌>>=◌, lift, read_bytes,
  write_bytes, read_frame, write_frame, connected, decrypted, encrypted,
}
use secure_desk.Session.Links.{GoesOn, GoesOn->>=}
use secure_desk.Host.{Host, on_link}
use secure_desk.Host.Control.{finish, handle_handshake}

module _ {N S : Type 0} (n : Noise N S) where
  write_bytes-GoesOn : (bytes : List ℕ) (l : Link S) → GoesOn (write_bytes n bytes l)
  unfolding write_bytes write_all
  write_bytes-GoesOn bytes l = ground arith

  read_bytes-GoesOn : (count : ℕ) (l : Link S) → GoesOn (read_bytes n count l)
  unfolding read_bytes read_exact
  read_bytes-GoesOn count l = ground arith

  -- What is read has the length that was asked for.
  read_bytes-length :
      (count : ℕ) (l l' : Link S) (bytes : List ℕ)
      → read_bytes n count l ≡ done bytes l'
      → length bytes ≡ count
  unfolding read_bytes read_exact
  read_bytes-length count l l' bytes h = elim (Option-cases l.stream) [
    | inl e ↦ ground arith
    | inr (w, e) ↦ ground (arith, length-take count w.incoming)
  ]

  or_bad_frame-Returns : (code : ℕ) → Returns (or_bad_frame (channel_try_from code))
  unfolding channel_try_from
  or_bad_frame-Returns code = ground arith

  lift-GoesOn :
      {A : Type 0} (m : Outcome Transport.Error A) → Returns m → (l : Link S) → GoesOn (lift m l)
  lift-GoesOn (ok a) h l = tt
  lift-GoesOn (err e) h l = tt
  lift-GoesOn panic h l = h

  read_header-Returns : (head : List ℕ) → length head ≡ 4 → Returns (read_header head)
  unfolding read_header
  read_header-Returns head h = Returns-at head 0 _ (omega arith) (λ code.
      Returns-bind (or_bad_frame (channel_try_from code)) _ (or_bad_frame-Returns code) (λ channel.
        Returns-at head 1 _ (omega arith) (λ high.
          Returns-at head 2 _ (omega arith)
            (λ middle. Returns-at head 3 _ (omega arith) (λ low. tt)))))

  decrypted-GoesOn : (payload : List ℕ) (l : Link S) → GoesOn (decrypted n payload l)
  decrypted-GoesOn payload l = ground arith

  encrypted-GoesOn : (payload : List ℕ) (l : Link S) → GoesOn (encrypted n payload l)
  encrypted-GoesOn payload l = ground arith

  pub read_frame-GoesOn : (l : Link S) → GoesOn (read_frame n l)
  unfolding read_frame
  read_frame-GoesOn l = go (read_bytes n 4 l) refl (read_bytes-GoesOn 4 l)
    where
      go :
          (r : Run (Link S) (List ℕ))
          → read_bytes n 4 l ≡ r
          → GoesOn r
          → GoesOn (
              continue_with r (λ head. (do
                (channel, len) ← lift (read_header head)
                payload ← read_bytes n len
                plain ← decrypted n payload
                ret (frame channel plain))))
      go (done head l') e g =
          GoesOn->>= (lift (read_header head)) _
            (lift-GoesOn (read_header head)
              (read_header-Returns head (read_bytes-length 4 l l' head e)))
            (λ p. GoesOn->>= (read_bytes n p.1) _ (read_bytes-GoesOn p.1) (λ payload.
              GoesOn->>= (decrypted n payload) _ (decrypted-GoesOn payload) (λ plain k. tt)))
            l'
      go (failed x l') e g = tt
      go panicked e g = g

  connected-GoesOn : (l : Link S) → GoesOn (connected n l)
  connected-GoesOn l = ground arith

  write_frame-GoesOn : (f : Frame) (l : Link S) → GoesOn (write_frame n f l)
  unfolding write_frame
  write_frame-GoesOn f = GoesOn->>= _ _ connected-GoesOn (λ _.
      GoesOn->>= _ _ (encrypted-GoesOn f.payload)
        (λ payload. GoesOn->>= _ _ (write_bytes-GoesOn _) (λ _. write_bytes-GoesOn payload)))

  pub on_link-GoesOn :
      {A : Type 0} (m : Act (Link S) A)
      → ((l : Link S) → GoesOn (m l))
      → (h : Host S) → GoesOn (on_link m h)
  on_link-GoesOn {A = A} m k h = by_cases (m h.link) (k h.link)
    where
      by_cases :
          (r : Run (Link S) A)
          → GoesOn r
          → GoesOn {S = Host S} (elim r [
            | done a l ↦ done a (record h { link = l })
            | failed e l ↦ failed e (record h { link = l })
            | panicked ↦ panicked
          ])
      by_cases (done a l) g = tt
      by_cases (failed e l) g = tt
      by_cases panicked g = g

  pub answers-GoesOn : (f : Frame) (h : Host S) → GoesOn (on_link (write_frame n f) h)
  answers-GoesOn f = on_link-GoesOn (write_frame n f) (write_frame-GoesOn f)

  pub handle_handshake-GoesOn :
      (message : List ℕ) (h : Host S) → GoesOn (handle_handshake n message h)
  unfolding handle_handshake
  handle_handshake-GoesOn message h = elim (Option-cases (n.responder h.private_key)) [
    | inl e ↦ rw (handle_handshake, e) tt
    | inr (r, e) ↦ elim (Option-cases (n.read_message message r)) [
      | inl e' ↦ rw (handle_handshake, e, e') tt
      | inr (r', e') ↦ elim (Option-cases (n.write_message r')) [
        | inl e'' ↦ rw (handle_handshake, e, e', e'') tt
        | inr ((out, r''), e'') ↦
            rw (handle_handshake, e, e', e'')
              (GoesOn->>= (on_link (write_frame n (control_frame handshake out))) _
                (answers-GoesOn (control_frame handshake out)) (λ _ k. finish-GoesOn r'' k) h)
      ]
    ]
  ]
    where
      finish-GoesOn : (r : N) (h : Host S) → GoesOn (finish n r h)
      finish-GoesOn r h = ground arith
