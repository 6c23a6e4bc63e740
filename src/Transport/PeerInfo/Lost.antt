-- ===== src/Transport/PeerInfo/Lost.antt =====
-- app/src-tauri/src/transport.rs: `P2PInfo::decode` steps over a public address by the wrong count, since
-- it tests the flag in front of the address and not the version: the local address gets lost.
use secure_desk.Base.{
  ℕ, ◌+◌, ◌<◌, ◌≤◌, ◌≡◌, ◌≢◌, refl, ap, sym, ◌∙◌, Bool, Option, none, some, List, ◌∷◌, ◌++◌, length,
  arith, drop, length-append, length-drop, drop-length_append,
}
use secure_desk.Base.Outcome.{ok, >>=-eq-ok}
use secure_desk.Base.Words.{to_be16}
use secure_desk.Transport.PeerInfo.{
  SocketAddr, v4, v6, P2pInfo, encode_addr, encode, decode_addr, addr_at, has_addr, local_pos,
  decode, IsAddr, bool_code, info,
}
use secure_desk.Transport.PeerInfo.RoundTrip.{addr_at-one, decode_both, flag-code}

-- Of two IPv4 addresses encoded together, with octets and ports in range, the receiver reads the
-- public one and the flag, and no local address.
pub decode-encode_v4_v4 :
    (a b c d port x y z w local_port : ℕ) (enabled : Bool)
    → IsAddr (v4 a b c d port)
    → decode (encode (info (some (v4 a b c d port)) (some (v4 x y z w local_port)) enabled))
      ≡ ok (info (some (v4 a b c d port)) none enabled)
unfolding encode local_pos addr_at has_addr
decode-encode_v4_v4 a b c d port x y z w local_port enabled h =
    decode_both (bool_code enabled) _ (some (v4 a b c d port)) none
      (addr_at-one (bool_code enabled) (some (v4 a b c d port))
        (encode_addr (some (v4 x y z w local_port))) h)
      refl
    ∙ rw (flag-code enabled)

local_pos-some :
    (o : SocketAddr) (l : Option SocketAddr) (enabled : Bool)
    → local_pos (encode (info (some o) l enabled)) (some o) ≡ 20
unfolding local_pos encode
local_pos-some (v4 a b c d port) l enabled = refl
local_pos-some (v6 octets port flow scope) l enabled = refl

-- The second address of a successful `decode`, by inversion.
decode-local :
    (flag : ℕ) (rest : List ℕ) {p : Option SocketAddr} {i : P2pInfo}
    → addr_at (flag ∷ rest) 1 ≡ ok p
    → decode (flag ∷ rest) ≡ ok i
    → addr_at (flag ∷ rest) (local_pos (flag ∷ rest) p) ≡ ok i.local_addr
unfolding decode
decode-local flag rest {p} {i} hp e =
    let (x, read, made) =
      >>=-eq-ok (addr_at (flag ∷ rest) (local_pos (flag ∷ rest) p)) _ (rw hp at e) in
    ground (arith, read, made)

-- The bytes that an address of that kind takes, its version included.
abbrev addr_size : SocketAddr → ℕ
addr_size (v4 a b c d port) = 7
addr_size (v6 octets port flow scope) = 19

decode_addr-size :
    (bytes : List ℕ) (o : SocketAddr) → decode_addr bytes ≡ ok o → addr_size o ≤ length bytes
unfolding decode_addr
decode_addr-size bytes (v4 a b c d port) h = ground arith
decode_addr-size bytes (v6 octets port flow scope) h = ground arith

addr_at-eq-some :
    (bytes : List ℕ) {o : SocketAddr}
    → addr_at bytes 20 ≡ ok (some o)
    → decode_addr (drop 21 bytes) ≡ ok o
unfolding addr_at
addr_at-eq-some bytes {o} h = ground arith

addr_size-pos : (o : SocketAddr) → 0 < addr_size o
addr_size-pos (v4 a b c d port) = omega arith
addr_size-pos (v6 octets port flow scope) = omega arith

length-encode_addr : (o : SocketAddr) → IsAddr o → length (encode_addr (some o)) ≡ addr_size o + 1
unfolding encode_addr
length-encode_addr (v4 a b c d port) h = refl
length-encode_addr (v6 octets port flow scope) h =
    omega (arith, length-append octets (to_be16 port), h.1)

-- An IPv6 address with its flag takes 20 bytes.
behind-v6 :
    (flag : ℕ) (octets : List ℕ) (port flow scope : ℕ) (rest : List ℕ)
    → length octets ≡ 16
    → drop 21 (flag ∷ (encode_addr (some (v6 octets port flow scope)) ++ rest)) ≡ rest
unfolding encode_addr
behind-v6 flag octets port flow scope rest h =
    let size : length (octets ++ to_be16 port) ≡ 18 =
      omega (arith, length-append octets (to_be16 port)) in
    ap (λ (n : ℕ). drop n ((octets ++ to_be16 port) ++ rest)) (sym size)
    ∙ drop-length_append (octets ++ to_be16 port) rest

-- What begins with the flag 1 is no address.
flag-NotAddr : (l : SocketAddr) → decode_addr (encode_addr (some l)) ≢ ok l
unfolding decode_addr encode_addr
flag-NotAddr (v4 a b c d port) e = ground arith
flag-NotAddr (v6 octets port flow scope) e = ground arith

-- What stands behind byte 20 never starts with an encoding of the local address.
rest-NotLocal :
    (flag : ℕ) (o l : SocketAddr)
    → IsAddr o
    → IsAddr l
    → decode_addr (drop 21 (flag ∷ (encode_addr (some o) ++ encode_addr (some l)))) ≢ ok l
rest-NotLocal flag (v4 a b c d port) l ho hl e = omega (
  arith,
  length-drop 21 (flag ∷ (encode_addr (some (v4 a b c d port)) ++ encode_addr (some l))),
  length-append (encode_addr (some (v4 a b c d port))) (encode_addr (some l)),
  length-encode_addr (v4 a b c d port) ho,
  length-encode_addr l hl,
  addr_size-pos l,
  decode_addr-size _ l e,
)
rest-NotLocal flag (v6 octets port flow scope) l ho hl e =
    flag-NotAddr l (rw (behind-v6 flag octets port flow scope (encode_addr (some l)) ho.1) at e)

-- If both addresses are present, of whichever versions and in range, `decode` does not give back
-- what `encode` was given.
pub decode-encode_ne :
    (o l : SocketAddr) (enabled : Bool)
    → IsAddr o
    → IsAddr l
    → decode (encode (info (some o) (some l) enabled)) ≢ ok (info (some o) (some l) enabled)
unfolding encode
decode-encode_ne o l enabled ho hl e =
    let flag = bool_code enabled in
    let rest = encode_addr (some o) ++ encode_addr (some l) in
    let read = decode-local flag rest (addr_at-one flag (some o) (encode_addr (some l)) ho) e in
    rest-NotLocal flag o l ho hl
      (addr_at-eq-some (flag ∷ rest) (rw (local_pos-some o (some l) enabled) at read))
