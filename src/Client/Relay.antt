-- ===== src/Client/Relay.antt =====
-- app/src-tauri/src/client.rs: what becomes of a connection by the relay's answer.
use secure_desk.Base.{
  ℕ, ◌+◌, ◌%◌, ◌^◌, ◌<◌, ◌≡◌, ◌≢◌, refl, ap, ◌∙◌, Bool, true, false, none, List, [], ◌∷◌, ◌++◌,
  arith, ◌==◌, if◌then◌else◌, length, append_assoc, ne→==,
}
use secure_desk.Base.Utf8.{from_utf8_lossy}
use secure_desk.Base.Words.{be24_bytes, to_be16}
use secure_desk.Protocol.{header, control, control_frame}
use secure_desk.Transport.{Wire, write_all}
use secure_desk.Transport.Stream.{frame_bytes, read_exact-header}
use secure_desk.Session.{
  Error, Run, done, failed, Act, Noise, Link, ◌>>=◌, continue_with, fail, ret, read_bytes,
  write_bytes, connection_failed,
}
use secure_desk.Session.Links.{plain, read_bytes-ok, read_exact-payload}
use secure_desk.Client.Connect.{
  Network, without_spaces, raw_header, register, await_relay, relay_answer, session,
  connect_with_p2p,
}

-- A first part that is done.
then_done :
    {S A B : Type 0} {r : Run S A} {a : A} {s : S} (f : A → Act S B)
    → r ≡ done a s
    → continue_with r f ≡ f a s
then_done f e = ap (λ r. continue_with r f) e

then_failed :
    {S A B : Type 0} {r : Run S A} {e : Error} {s : S} (f : A → Act S B)
    → r ≡ failed e s
    → continue_with r f ≡ failed e s
then_failed f h = ap (λ r. continue_with r f) h

-- The bytes of the registration.
abbrev pub registration : List ℕ → List ℕ → List ℕ
registration my_id target_id =
    0x02
    ∷ (to_be16 (length my_id % 2 ^ 16)
        ++ (my_id ++ (to_be16 (length target_id % 2 ^ 16) ++ target_id)))

registration_assoc :
    (sent a b c d e : List ℕ)
    → ((((sent ++ a) ++ b) ++ c) ++ d) ++ e ≡ sent ++ (a ++ (b ++ (c ++ (d ++ e))))
registration_assoc sent a b c d e =
    append_assoc (((sent ++ a) ++ b) ++ c) d e
    ∙ (append_assoc ((sent ++ a) ++ b) c (d ++ e)
        ∙ (append_assoc (sent ++ a) b (c ++ (d ++ e)) ∙ append_assoc sent a (b ++ (c ++ (d ++ e)))))

module _ {N S : Type 0} (n : Noise N S) where
  write_bytes-plain :
      (bytes : List ℕ) (w : Wire)
      → w.writable ≡ true
      → write_bytes n bytes (plain w) ≡ done tt (plain (record w { sent = w.sent ++ bytes }))
  unfolding write_bytes write_all
  write_bytes-plain bytes w h = rw h refl

  register-plain :
      (my_id target_id : List ℕ) (w : Wire)
      → w.writable ≡ true
      → register n my_id target_id (plain w)
        ≡ done tt (plain (record w { sent = w.sent ++ registration my_id target_id }))
  unfolding register
  register-plain my_id target_id w h =
      let my_len = to_be16 (length my_id % 2 ^ 16) in
      let target_len = to_be16 (length target_id % 2 ^ 16) in
      let w1 = record w { sent = w.sent ++ (0x02 ∷ []) } in
      let w2 = record w { sent = w1.sent ++ my_len } in
      let w3 = record w { sent = w2.sent ++ my_id } in
      let w4 = record w { sent = w3.sent ++ target_len } in
      then_done _ (write_bytes-plain (0x02 ∷ []) w h)
      ∙ (then_done _ (write_bytes-plain my_len w1 h)
          ∙ (then_done _ (write_bytes-plain my_id w2 h)
              ∙ (then_done _ (write_bytes-plain target_len w3 h)
                  ∙ (write_bytes-plain target_id w4 h
                      ∙ ap (λ s. done tt (plain (record w { sent = s })))
                          (registration_assoc w.sent (0x02 ∷ []) my_len my_id target_len
                            target_id)))))

  raw_header-header :
      (len : ℕ) (l : Link S) → len < 2 ^ 24 → raw_header (header control len) l ≡ done (0x00, len) l
  unfolding raw_header
  raw_header-header len l h =
      let whole : len % 2 ^ 24 ≡ len = omega arith in
      ap (λ k. done (0x00, k) l) (be24_bytes len ∙ whole)

  await_relay-plain :
      (code : ℕ) (message rest : List ℕ) (w : Wire)
      → length message + 1 < 2 ^ 24
      → await_relay n
          (plain (record w { incoming = frame_bytes (control_frame code message) ++ rest }))
        ≡ (if code == 0xff then fail (connection_failed (from_utf8_lossy message)) else ret tt)
            (plain (record w { incoming = rest }))
  unfolding await_relay relay_answer
  await_relay-plain code message rest w small =
      let f = control_frame code message in
      let behind = record w { incoming = (code ∷ message) ++ rest } in
      then_done _ (
        read_bytes-ok n 4 (record w { incoming = frame_bytes f ++ rest }) behind
          (header control (length (code ∷ message)))
          (read_exact-header control (length (code ∷ message)) ((code ∷ message) ++ rest) w))
      ∙ (then_done (λ (p : ℕ × ℕ). read_bytes n p.1 >>= relay_answer n p.0)
            (raw_header-header (length (code ∷ message)) (plain behind) (omega arith))
          ∙ then_done (relay_answer n 0x00) (
              read_bytes-ok n (length (code ∷ message)) behind (record w { incoming = rest })
                (code ∷ message) (read_exact-payload n f rest w)))

  -- Where the relay answers with an error, on a stream that takes bytes and has no Noise channel, connecting
  -- reports that error's text, shorter than 2 ^ 24 - 1 bytes, whether or not P2P is enabled.
  pub connect_with_p2p_refused :
      (net : Network) (my_id remote_id message rest : List ℕ) (p2p_enabled : Bool) (w : Wire)
      → w.writable ≡ true
      → length message + 1 < 2 ^ 24
      → (l : Link S) × (connect_with_p2p n net my_id remote_id p2p_enabled
            (plain (record w { incoming = frame_bytes (control_frame 0xff message) ++ rest }))
          ≡ failed (connection_failed (from_utf8_lossy message)) l)
  unfolding connect_with_p2p
  connect_with_p2p_refused net my_id remote_id message rest p2p_enabled w writable small =
      let start = record w { incoming = frame_bytes (control_frame 0xff message) ++ rest } in
      let registered = record w {
        sent = w.sent ++ registration my_id (without_spaces remote_id);
      } in
      (
        _,
        then_done _ (register-plain my_id (without_spaces remote_id) start writable)
            ∙ then_failed _ (await_relay-plain 0xff message rest registered small),
      )

  -- Where the relay answers with a control frame that is no error and has less than 2 ^ 24 bytes,
  -- and P2P is disabled, connecting on a stream that takes bytes sends the registration and nothing
  -- else, reads that frame, and gives a session over the relay.
  pub connect_with_p2p_relay :
      (net : Network) (my_id remote_id message rest : List ℕ) (code : ℕ) (w : Wire)
      → w.writable ≡ true
      → code ≢ 0xff
      → length message + 1 < 2 ^ 24
      → connect_with_p2p n net my_id remote_id false
          (plain (record w { incoming = frame_bytes (control_frame code message) ++ rest }))
        ≡ (let w' = record w {
          incoming = rest;
          sent = w.sent ++ registration my_id (without_spaces remote_id);
        } in
            done (session n (without_spaces remote_id) none (plain w')) (plain w'))
  unfolding connect_with_p2p
  connect_with_p2p_relay net my_id remote_id message rest code w writable no_error small =
      let start = record w { incoming = frame_bytes (control_frame code message) ++ rest } in
      let registered = record w {
        sent = w.sent ++ registration my_id (without_spaces remote_id);
      } in
      then_done _ (register-plain my_id (without_spaces remote_id) start writable)
      ∙ then_done _ (
          await_relay-plain code message rest registered small ∙ rw (ne→== code 0xff no_error) refl)
