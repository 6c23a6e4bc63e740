-- ===== src/Transport/PeerInfo/RoundTrip.antt =====
-- app/src-tauri/src/transport.rs: where `P2PInfo::decode` gives back what `encode` was given.
use secure_desk.Base.{
  ℕ, ◌<◌, ◌≡◌, refl, ap, sym, ◌∙◌, Bool, true, false, not, Option, none, some, List, [], ◌∷◌, ◌++◌,
  ◌==◌, length, arith, append_assoc, take, take-length_append, length-append, get_elem?-append,
}
use secure_desk.Base.Outcome.{ok}
use secure_desk.Base.Words.{to_be16}
use secure_desk.Transport.PeerInfo.{
  SocketAddr, v4, v6, encode_addr, encode, decode_addr, addr_at, has_addr, local_pos, decode,
  IsAddr, AllAddr, bool_code, info,
}

pub decode_addr-v4 :
    (a b c d port : ℕ) (rest : List ℕ)
    → port < 65536
    → decode_addr (4 ∷ a ∷ b ∷ c ∷ d ∷ (to_be16 port ++ rest)) ≡ ok (v4 a b c d port)
unfolding decode_addr
decode_addr-v4 a b c d port rest h = ground arith

-- Of 16 octets and a port, whatever follows.
pub decode_addr-v6 :
    (octets : List ℕ) (port : ℕ) (rest : List ℕ)
    → length octets ≡ 16
    → port < 65536
    → decode_addr (6 ∷ (octets ++ (to_be16 port ++ rest))) ≡ ok (v6 octets port 0 0)
unfolding decode_addr
decode_addr-v6 octets port rest h hp = ground (
  arith,
  length-append octets (to_be16 port ++ rest),
  get_elem?-append octets (to_be16 port ++ rest) 16 0 (omega arith),
  get_elem?-append octets (to_be16 port ++ rest) 17 1 (omega arith),
  take_sixteen,
)
  where
    take_sixteen : take 16 (octets ++ (to_be16 port ++ rest)) ≡ octets
    take_sixteen =
        ap (λ (n : ℕ). take n (octets ++ (to_be16 port ++ rest))) (sym h)
        ∙ take-length_append octets (to_be16 port ++ rest)

-- The encoding of an optional address is read back where it starts, at 1 or at 2.
pub addr_at-one :
    (flag : ℕ) (o : Option SocketAddr) (rest : List ℕ)
    → AllAddr o
    → addr_at (flag ∷ (encode_addr o ++ rest)) 1 ≡ ok o
unfolding addr_at has_addr encode_addr
addr_at-one flag none rest h = refl
addr_at-one flag (some (v4 a b c d port)) rest h = ground (arith, decode_addr-v4 a b c d port rest)
addr_at-one flag (some (v6 octets port flow scope)) rest h =
    ground (arith, append_assoc octets (to_be16 port) rest, decode_addr-v6 octets port rest)

pub addr_at-two :
    (flag x : ℕ) (o : Option SocketAddr) → AllAddr o → addr_at (flag ∷ x ∷ encode_addr o) 2 ≡ ok o
unfolding addr_at has_addr encode_addr
addr_at-two flag x none h = refl
addr_at-two flag x (some (v4 a b c d port)) h = ground (arith, decode_addr-v4 a b c d port [])
addr_at-two flag x (some (v6 octets port flow scope)) h =
    ground (arith, decode_addr-v6 octets port [])

pub flag-code : (b : Bool) → not (bool_code b == 0) ≡ b
flag-code true = refl
flag-code false = refl

-- The two addresses that `decode` reads, one after the other.
pub decode_both :
    (flag : ℕ) (rest : List ℕ) (p l : Option SocketAddr)
    → addr_at (flag ∷ rest) 1 ≡ ok p
    → addr_at (flag ∷ rest) (local_pos (flag ∷ rest) p) ≡ ok l
    → decode (flag ∷ rest) ≡ ok (info p l (not (flag == 0)))
unfolding decode
decode_both flag rest p l hp hl = rw (hp, hl)

local_pos-none : (flag x : ℕ) (rest : List ℕ) → local_pos (flag ∷ x ∷ rest) none ≡ 2
unfolding local_pos
local_pos-none flag x rest = ground arith

-- Without a public address the flag and the local address, absent or in range, are read back.
pub decode-encode_private :
    (o : Option SocketAddr) (enabled : Bool)
    → AllAddr o
    → decode (encode (info none o enabled)) ≡ ok (info none o enabled)
unfolding encode
decode-encode_private o enabled h =
    let flag = bool_code enabled in
    decode_both flag (0 ∷ encode_addr o) none o (addr_at-one flag none (encode_addr o) tt)
      (rw (local_pos-none flag 0 (encode_addr o)) (addr_at-two flag 0 o h))
    ∙ rw (flag-code enabled)

-- An IPv4 public address in range is read back with the flag, where there is no local address.
pub decode-encode_public_v4 :
    (a b c d port : ℕ) (enabled : Bool)
    → IsAddr (v4 a b c d port)
    → decode (encode (info (some (v4 a b c d port)) none enabled))
      ≡ ok (info (some (v4 a b c d port)) none enabled)
unfolding encode local_pos addr_at has_addr
decode-encode_public_v4 a b c d port enabled h =
    decode_both (bool_code enabled) _ (some (v4 a b c d port)) none
      (addr_at-one (bool_code enabled) (some (v4 a b c d port)) (0 ∷ []) h) refl
    ∙ rw (flag-code enabled)
