-- ===== src/Session.antt =====
-- What app/src-tauri/src/host.rs and app/src-tauri/src/client.rs share: frames on a stream that is encrypted
-- once a Noise channel stands. A step of a session changes its state, also where it fails; a panic ends
-- the program. The library snow is the parameter `Noise`.
pub mod Links
use secure_desk.Base.{ℕ, ◌≡◌, Bool, false, Option, none, some, List, [], length}
use secure_desk.Base.Outcome.{Outcome, ok, err, panic}
use secure_desk.Protocol.{Frame, frame, header}
use secure_desk.Transport.{Wire, read_exact, write_all, read_header}
use secure_desk.Transport

pub data Error : Type 0 where
  not_connected noise_failed session_stopped capture_failed inject_failed : Error
  io : Transport.Error → Error
  connection_failed : List ℕ → Error

pub data Run (S A : Type 0) : Type 0 where
  done : A → S → Run S A
  failed : Error → S → Run S A
  panicked : Run S A

abbrev pub Act : Type 0 → Type 0 → Type 0
Act S A = S → Run S A

module _ {S A : Type 0} where
  abbrev pub ret : A → Act S A
  ret a s = done a s

  abbrev pub fail : Error → Act S A
  fail e s = failed e s

  -- A pure part that may fail
  abbrev pub lift : Outcome Transport.Error A → Act S A
  lift (ok a) s = done a s
  lift (err e) s = failed (io e) s
  lift panic s = panicked

  abbrev pub get : (S → A) → Act S A
  get f s = done (f s) s

abbrev pub modify : {S : Type 0} → (S → S) → Act S (Unit {0})
modify f s = done tt (f s)

-- The rest of a step, where its first part was done.
abbrev pub continue_with : {S A B : Type 0} → Run S A → (A → Act S B) → Run S B
continue_with (done a s) f = f a s
continue_with (failed e s) f = failed e s
continue_with panicked f = panicked

infixl 5 ◌>>=◌ ◌>>◌
abbrev pub ◌>>=◌ : {S A B : Type 0} → Act S A → (A → Act S B) → Act S B
m >>= f = λ s. continue_with (m s) f

abbrev pub ◌>>◌ : {S B : Type 0} → Act S (Unit {0}) → Act S B → Act S B
m >> k = m >>= λ _. k

-- What the code uses of snow; `none` is an error that it returns. `responder` has the pattern XK.
pub record Noise (H S : Type 0) : Type 0 where
  pub responder : List ℕ → Option H
  pub read_message : List ℕ → H → Option H
  pub write_message : H → Option (List ℕ × H)
  pub is_handshake_finished : H → Bool
  pub into_transport_mode : H → Option S
  pub encrypt : List ℕ → S → Option (List ℕ × S)
  pub decrypt : List ℕ → S → Option (List ℕ × S)

-- The pattern XK has three messages, so the handshake of a responder that has read one and written one is
-- not finished.
abbrev pub IsXk : {H S : Type 0} → Noise H S → Type 0
IsXk {H} n =
    (key message : List ℕ) (h h' h'' : H) (out : List ℕ)
    → n.responder key ≡ some h
    → n.read_message message h ≡ some h'
    → n.write_message h' ≡ some (out, h'')
    → n.is_handshake_finished h'' ≡ false

pub record Link (S : Type 0) : Type 0 where
  pub stream : Option Wire
  pub channel : Option S

module _ {H S : Type 0} (n : Noise H S) where
  -- `stream.read_exact`, which on a stream that ends has taken what there was.
  unfoldable pub read_bytes : ℕ → Act (Link S) (List ℕ)
  unfolding read_exact
  read_bytes count l = elim l.stream [
    | none ↦ failed not_connected l
    | some w ↦ elim (read_exact count w) [
      | ok p ↦ done p.0 (record l { stream = some p.1 })
      | err e ↦ failed (io e) (record l { stream = some (record w { incoming = [] }) })
      | panic ↦ panicked
    ]
  ]

  unfoldable pub write_bytes : List ℕ → Act (Link S) (Unit {0})
  unfolding write_all
  write_bytes bytes l = elim l.stream [
    | none ↦ failed not_connected l
    | some w ↦ elim (write_all bytes w) [
      | ok w' ↦ done tt (record l { stream = some w' })
      | err e ↦ failed (io e) l
      | panic ↦ panicked
    ]
  ]

  abbrev pub connected : Act (Link S) (Unit {0})
  connected l = elim l.stream [ none ↦ failed not_connected l | some w ↦ done tt l ]

  abbrev pub decrypted : List ℕ → Act (Link S) (List ℕ)
  decrypted payload l = elim l.channel [
    | none ↦ done payload l
    | some s ↦ elim (n.decrypt payload s) [
      | none ↦ failed noise_failed l
      | some p ↦ done p.0 (record l { channel = some p.1 })
    ]
  ]

  abbrev pub encrypted : List ℕ → Act (Link S) (List ℕ)
  encrypted payload l = elim l.channel [
    | none ↦ done payload l
    | some s ↦ elim (n.encrypt payload s) [
      | none ↦ failed noise_failed l
      | some p ↦ done p.0 (record l { channel = some p.1 })
    ]
  ]

  unfoldable pub read_frame : Act (Link S) Frame
  unfolding read_bytes read_header
  read_frame = do
    head ← read_bytes 4
    (channel, len) ← lift (read_header head)
    payload ← read_bytes len
    plain ← decrypted payload
    ret (frame channel plain)

  unfoldable pub write_frame : Frame → Act (Link S) (Unit {0})
  unfolding write_bytes
  write_frame f = do
    connected
    payload ← encrypted f.payload
    write_bytes (header f.channel (length payload))
    write_bytes payload
