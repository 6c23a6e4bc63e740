-- ===== src/Client/Connect.antt =====
-- app/src-tauri/src/client.rs: `connect_with_p2p` on the stream to the relay, once TLS stands.
use secure_desk.Base.{
  ℕ, ◌%◌, ◌^◌, Bool, not, ◌&&◌, Option, none, some, List, [], ◌∷◌, ◌==◌, if◌then◌else◌, length,
  is_empty, get_or, drop,
}
use secure_desk.Base.Outcome.{ok, err, panic, at}
use secure_desk.Base.Utf8.{from_utf8_lossy}
use secure_desk.Base.Words.{be24, to_be16}
use secure_desk.Protocol.{Frame, frame, header, control, channel_code, control_frame}
use secure_desk.Protocol.Control as Msg
use secure_desk.P2p.{choose_p2p_port, gather_p2p_info, attempt_p2p_connection}
use secure_desk.Transport.{Wire, read_header, relay, p2p}
use secure_desk.Transport.PeerInfo.{SocketAddr, P2pInfo, encode, decode}
use secure_desk.Session.{
  Act, done, failed, panicked, Noise, Link, lift, fail, ret, ◌>>=◌, ◌>>◌, read_bytes, write_bytes,
  connection_failed,
}
use secure_desk.Client.{Client}

-- What the surroundings give: the addresses found, and the attempt at a connection.
pub record Network : Type 0 where
  pub discovered : Option SocketAddr
  pub local : Option SocketAddr
  pub try_connect : SocketAddr → Option Wire

-- `remote_id.replace(' ', "")`
unfoldable pub without_spaces : List ℕ → List ℕ
without_spaces [] = []
without_spaces (b ∷ bs) = let rest = without_spaces bs in if b == b' ' then rest else b ∷ rest

-- The first byte and the length in a header, with no check of the channel.
unfoldable pub raw_header : {S : Type 0} → List ℕ → Act S (ℕ × ℕ)
raw_header head = do
  code ← lift (at head 0)
  high ← lift (at head 1)
  middle ← lift (at head 2)
  low ← lift (at head 3)
  ret (code, be24 high middle low)

-- `if let Ok(frame)`: an error is passed over.
abbrev pub if_ok : {S A : Type 0} → Act S A → Act S (Option A)
if_ok m s = elim (m s) [
  | done a s' ↦ done (some a) s'
  | failed e s' ↦ done none s'
  | panicked ↦ panicked
]

module _ {N S : Type 0} (n : Noise N S) where
  unfoldable pub write_frame_to_stream : Frame → Act (Link S) (Unit {0})
  unfolding write_bytes
  write_frame_to_stream f = do
    write_bytes n (header f.channel (length f.payload))
    write_bytes n f.payload

  unfoldable pub read_frame_from_stream : Act (Link S) Frame
  unfolding read_bytes read_header
  read_frame_from_stream = do
    head ← read_bytes n 4
    (channel, len) ← lift (read_header head)
    payload ← read_bytes n len
    ret (frame channel payload)

  -- As a technician who wants to reach `target_id`
  unfoldable pub register : List ℕ → List ℕ → Act (Link S) (Unit {0})
  unfolding write_bytes
  register my_id target_id = do
    write_bytes n (0x02 ∷ [])
    write_bytes n (to_be16 (length my_id % 2 ^ 16))
    write_bytes n my_id
    write_bytes n (to_be16 (length target_id % 2 ^ 16))
    write_bytes n target_id

  -- An error of the relay with its text, or anything else.
  unfoldable pub relay_answer : ℕ → List ℕ → Act (Link S) (Unit {0})
  unfolding from_utf8_lossy
  relay_answer channel payload =
      if (channel == 0x00) && (not (is_empty payload) && (get_or payload 0 0 == 0xff))
      then fail (connection_failed (from_utf8_lossy (drop 1 payload)))
      else ret tt

  unfoldable pub await_relay : Act (Link S) (Unit {0})
  unfolding read_bytes raw_header relay_answer
  await_relay = do
    head ← read_bytes n 4
    (channel, len) ← raw_header head
    payload ← read_bytes n len
    relay_answer channel payload

  -- The attempt at a direct connection, and what the host is told of it.
  unfoldable pub attempt : Network → P2pInfo → List ℕ → Act (Link S) (Option Wire)
  unfolding decode attempt_p2p_connection write_frame_to_stream
  attempt net own bytes = elim (decode bytes) [
    | err e ↦ ret none
    | panic ↦ (λ l. panicked)
    | ok remote ↦ elim (attempt_p2p_connection net.try_connect remote own) [
      | some t ↦ (do write_frame_to_stream (control_frame Msg.p2p_ready []); ret (some t))
      | none ↦ (do write_frame_to_stream (control_frame Msg.p2p_failed []); ret none)
    ]
  ]

  unfoldable pub after_answer : Network → P2pInfo → Option Frame → Act (Link S) (Option Wire)
  unfolding attempt
  after_answer net own none = ret none
  after_answer net own (some f) =
      if (channel_code f.channel == channel_code control)
        && (not (is_empty f.payload) && (get_or f.payload 0 0 == Msg.p2p_answer))
      then attempt net own (drop 1 f.payload)
      else ret none

  unfoldable pub offer : Network → P2pInfo → Act (Link S) (Option Wire)
  unfolding write_frame_to_stream encode read_frame_from_stream after_answer
  offer net own = do
    write_frame_to_stream (control_frame Msg.p2p_offer (encode own))
    answer ← if_ok read_frame_from_stream
    after_answer net own answer

  abbrev pub session : List ℕ → Option Wire → Link S → Client S
  session target_id direct l = record {
    link = record l { channel = none };
    p2p_stream = direct;
    remote_id = target_id;
    connection_type = elim direct [ none ↦ relay | some t ↦ p2p ];
  }

  unfoldable pub connect_with_p2p : Network → List ℕ → List ℕ → Bool → Act (Link S) (Client S)
  unfolding register await_relay offer without_spaces gather_p2p_info choose_p2p_port
  connect_with_p2p net my_id remote_id p2p_enabled = do
    register my_id (without_spaces remote_id)
    await_relay
    direct ←
        if p2p_enabled
        then offer net
            (gather_p2p_info p2p_enabled (choose_p2p_port my_id) net.discovered net.local)
        else ret none
    λ l. done (session (without_spaces remote_id) direct l) l
