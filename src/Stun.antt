-- ===== src/Stun.antt =====
-- app/src-tauri/src/stun.rs: the binding request, and the parser of a binding response.
pub mod Bounds
pub mod Response
mod Tests
use secure_desk.Base.{
  ℕ, zero, suc, ◌+◌, ◌*◌, ◌/◌, ◌%◌, ◌^◌, Bool, true, false, Option, none, some, List, [], ◌∷◌, ◌++◌,
  leb, ltb, ◌==◌, not, if◌then◌else◌, length, bit_xor,
}
use secure_desk.Base.Outcome.{Outcome, ok, err, panic, ◌>>=◌, at, slice}
use secure_desk.Base.Words.{from_be16, from_be32, to_be16, to_be32, as_u8, shr}
use secure_desk.Transport.PeerInfo.{SocketAddr, v4, v6}

abbrev pub binding_request : ℕ
binding_request = 0x0001

abbrev pub binding_response : ℕ
binding_response = 0x0101

abbrev pub attr_mapped_address : ℕ
attr_mapped_address = 0x0001

abbrev pub attr_xor_mapped_address : ℕ
attr_xor_mapped_address = 0x0020

abbrev pub magic_cookie : ℕ
magic_cookie = 0x2112a442

-- `out_of_fuel` is no error of the program: the attribute loop ran out of rounds.
pub data Error : Type 0 where
  too_short truncated no_mapped_address : Error
  not_response : ℕ → Error
  xor_too_short xor_v6_too_short xor_v6_not_implemented : Error
  mapped_too_short mapped_v6_too_short : Error
  unknown_family : ℕ → Error
  out_of_fuel : Error

-- `build_binding_request` with the 12 random bytes that it draws
unfoldable pub build_binding_request : List ℕ → List ℕ
build_binding_request transaction_id =
    to_be16 binding_request ++ (to_be16 0 ++ (to_be32 magic_cookie ++ transaction_id))

-- `(STUN_MAGIC_COOKIE >> 16) as u16`
abbrev pub port_mask : ℕ
port_mask = shr magic_cookie 16 % 2 ^ 16

unfoldable pub parse_xor_mapped_address : List ℕ → Outcome Error SocketAddr
parse_xor_mapped_address bytes = if ltb (length bytes) 8 then err xor_too_short else (do
  family ← at bytes 1
  high ← at bytes 2
  low ← at bytes 3
  let port = bit_xor (from_be16 high low) port_mask
  if family == 0x01
      then (do
        a ← at bytes 4
        b ← at bytes 5
        c ← at bytes 6
        d ← at bytes 7
        let ip = bit_xor (from_be32 a b c d) magic_cookie
        ok (v4 (as_u8 (ip / 16777216)) (as_u8 (ip / 65536)) (as_u8 (ip / 256)) (as_u8 ip) port))
      else if family == 0x02
      then (if ltb (length bytes) 20 then err xor_v6_too_short else err xor_v6_not_implemented)
      else err (unknown_family family))

unfoldable pub parse_mapped_address : List ℕ → Outcome Error SocketAddr
parse_mapped_address bytes = if ltb (length bytes) 8 then err mapped_too_short else (do
  family ← at bytes 1
  high ← at bytes 2
  low ← at bytes 3
  let port = from_be16 high low
  if family == 0x01
      then (do a ← at bytes 4; b ← at bytes 5; c ← at bytes 6; d ← at bytes 7; ok (v4 a b c d port))
      else if family == 0x02
      then (if ltb (length bytes) 20
          then err mapped_v6_too_short
          else (do octets ← slice bytes 4 20; ok (v6 octets port 0 0)))
      else err (unknown_family family))

-- `(attr_len + 3) & !3`
abbrev pub padded : ℕ → ℕ
padded n = (n + 3) / 4 * 4

-- The type and the length of the attribute at `pos`.
unfoldable pub attribute_header : List ℕ → ℕ → Outcome Error (ℕ × ℕ)
attribute_header bytes pos = do
  type_high ← at bytes pos
  type_low ← at bytes (pos + 1)
  len_high ← at bytes (pos + 2)
  len_low ← at bytes (pos + 3)
  ok (from_be16 type_high type_low, from_be16 len_high len_low)

-- The `while` loop over the attributes, from `pos` up to `end`, which is `20 + msg_len`.
unfoldable pub parse_attributes : ℕ → List ℕ → ℕ → ℕ → Outcome Error SocketAddr
parse_attributes zero bytes end pos = err out_of_fuel
parse_attributes (suc fuel) bytes end pos =
    if leb (pos + 4) end
    then (do
      (attr_type, attr_len) ← attribute_header bytes pos
      let rest = parse_attributes fuel bytes end (pos + 4 + padded attr_len)
      if ltb (length bytes) (pos + 4 + attr_len)
          then err no_mapped_address
          else if attr_type == attr_xor_mapped_address
          then slice bytes (pos + 4) (pos + 4 + attr_len) >>= parse_xor_mapped_address
          else if attr_type == attr_mapped_address
          then slice bytes (pos + 4) (pos + 4 + attr_len) >>= parse_mapped_address
          else rest)
    else err no_mapped_address

-- Each round moves `pos` by 4 at least, and the loop starts at 20.
unfoldable pub parse_binding_response : List ℕ → Outcome Error SocketAddr
parse_binding_response bytes = if ltb (length bytes) 20 then err too_short else (do
  type_high ← at bytes 0
  type_low ← at bytes 1
  let msg_type = from_be16 type_high type_low
  if not (msg_type == binding_response) then err (not_response msg_type) else (do
    len_high ← at bytes 2
    len_low ← at bytes 3
    let msg_len = from_be16 len_high len_low
    if ltb (length bytes) (20 + msg_len)
        then err truncated
        else parse_attributes (length bytes) bytes (20 + msg_len) 20))
