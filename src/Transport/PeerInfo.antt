-- ===== src/Transport/PeerInfo.antt =====
-- app/src-tauri/src/transport.rs: `P2PInfo`, the addresses that two peers exchange, and its coding.
pub mod RoundTrip
pub mod Lost
pub mod Parse
mod Tests
use secure_desk.Base.{
  ℕ, suc, ◌+◌, ◌*◌, ◌<◌, ◌≡◌, Bool, true, false, not, Option, none, some, List, [], ◌∷◌, ◌++◌, leb,
  ltb, ◌==◌, if◌then◌else◌, length, get_elem?, is_empty,
}
use secure_desk.Base.Outcome.{Outcome, ok, err, panic, ◌>>=◌, at, slice, slice_from}
use secure_desk.Base.Words.{IsByte, IsBytes, from_be16, to_be16}

-- An IPv6 address is its 16 octets; then come the port, the flow information and the scope.
pub data SocketAddr : Type 0 where
  v4 : ℕ → ℕ → ℕ → ℕ → ℕ → SocketAddr
  v6 : List ℕ → ℕ → ℕ → ℕ → SocketAddr

pub record P2pInfo : Type 0 where
  pub public_addr : Option SocketAddr
  pub local_addr : Option SocketAddr
  pub p2p_enabled : Bool

-- `P2PInfo::new`
abbrev pub info : Option SocketAddr → Option SocketAddr → Bool → P2pInfo
info public local enabled = record {
  public_addr = public;
  local_addr = local;
  p2p_enabled = enabled;
}

pub data Error : Type 0 where
  empty_info no_address invalid_v4 invalid_v6 invalid_version : Error

-- `b as u8`
abbrev pub bool_code : Bool → ℕ
bool_code b = if b then 1 else 0

unfoldable pub encode_addr : Option SocketAddr → List ℕ
encode_addr none = 0 ∷ []
encode_addr (some (v4 a b c d port)) = 1 ∷ 4 ∷ a ∷ b ∷ c ∷ d ∷ to_be16 port
encode_addr (some (v6 octets port flow scope)) = 1 ∷ 6 ∷ (octets ++ to_be16 port)

unfoldable pub encode : P2pInfo → List ℕ
unfolding encode_addr
encode i = bool_code i.p2p_enabled ∷ (encode_addr i.public_addr ++ encode_addr i.local_addr)

unfoldable pub decode_addr : List ℕ → Outcome Error SocketAddr
decode_addr bytes = if is_empty bytes then err no_address else (do
  version ← at bytes 0
  if version == 4
      then (if ltb (length bytes) 7 then err invalid_v4 else (do
        a ← at bytes 1
        b ← at bytes 2
        c ← at bytes 3
        d ← at bytes 4
        high ← at bytes 5
        low ← at bytes 6
        ok (v4 a b c d (from_be16 high low))))
      else if version == 6
      then (if ltb (length bytes) 19 then err invalid_v6 else (do
        octets ← slice bytes 1 17
        high ← at bytes 17
        low ← at bytes 18
        ok (v6 octets (from_be16 high low) 0 0)))
      else err invalid_version)

-- `pos < data.len() && data[pos] == 1`
unfoldable pub has_addr : List ℕ → ℕ → Bool
has_addr bytes pos = elim (get_elem? bytes pos) [ none ↦ false | some b ↦ b == 1 ]

-- An optional address at `pos`: behind its flag, `decode_addr` reads what is left of the data.
unfoldable pub addr_at : List ℕ → ℕ → Outcome Error (Option SocketAddr)
addr_at bytes pos =
    if has_addr bytes pos
    then (do rest ← slice_from bytes (pos + 1); addr ← decode_addr rest; ok (some addr))
    else ok none

-- Where `decode` looks for the local address. With a public address `pos` is 2, and the code tests the
-- byte at `pos - 1`.
unfoldable pub local_pos : List ℕ → Option SocketAddr → ℕ
local_pos bytes (some addr) =
    2 + (elim (get_elem? bytes 1) [ none ↦ 18 | some b ↦ if b == 4 then 6 else 18 ])
local_pos bytes none = if ltb 1 (length bytes) then 2 else 1

unfoldable pub decode : List ℕ → Outcome Error P2pInfo
decode bytes = if is_empty bytes then err empty_info else (do
  flag ← at bytes 0
  public ← addr_at bytes 1
  local ← addr_at bytes (local_pos bytes public)
  ok (info public local (not (flag == 0))))

-- An address as the program builds them: octets are bytes, the port has 16 bits, and an IPv6 address has
-- no flow information and no scope.
abbrev pub IsAddr : SocketAddr → Type 0
IsAddr (v4 a b c d port) = IsByte a × IsByte b × IsByte c × IsByte d × (port < 65536)
IsAddr (v6 octets port flow scope) =
    IsBytes octets × (length octets ≡ 16) × (port < 65536) × (flow ≡ 0) × (scope ≡ 0)

abbrev pub AllAddr : Option SocketAddr → Type 0
AllAddr none = Unit
AllAddr (some a) = IsAddr a
