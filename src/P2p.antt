-- ===== src/P2p.antt =====
-- app/src-tauri/src/p2p.rs: the port, the addresses offered, and the order in which a peer is tried.
pub mod Laws
mod Tests
use secure_desk.Base.{
  ℕ, ◌+◌, ◌-◌, ◌*◌, ◌%◌, ◌^◌, Bool, true, false, not, ◌&&◌, Option, none, some, List, [], ◌∷◌,
  if◌then◌else◌,
}
use mathlib.Core.List.{foldl}
use secure_desk.Transport.PeerInfo.{SocketAddr, v4, v6, P2pInfo, info}

-- `acc.wrapping_mul(31).wrapping_add(b as u32)`
abbrev pub hash_step : ℕ → ℕ → ℕ
hash_step acc b = (acc * 31 % 2 ^ 32 + b) % 2 ^ 32

abbrev pub base_port : ℕ
base_port = 49152

abbrev pub port_range : ℕ
port_range = 65535 - base_port

unfoldable pub choose_p2p_port : List ℕ → ℕ
choose_p2p_port device_id =
    let hash = foldl hash_step 0 device_id in base_port + hash % 2 ^ 16 % port_range

-- `addr.set_port(port)`
abbrev pub set_port : ℕ → SocketAddr → SocketAddr
set_port port (v4 a b c d _) = v4 a b c d port
set_port port (v6 octets _ flow scope) = v6 octets port flow scope

abbrev pub with_port : ℕ → Option SocketAddr → Option SocketAddr
with_port port none = none
with_port port (some a) = some (set_port port a)

-- What STUN and the local socket found, `none` where they failed, is used only if P2P is enabled.
unfoldable pub gather_p2p_info : Bool → ℕ → Option SocketAddr → Option SocketAddr → P2pInfo
gather_p2p_info enabled port discovered local =
    info (if enabled then with_port port discovered else none)
      (if enabled then with_port port local else none) enabled

-- `try_connect` on an address that may be absent: the connection, or `none` on an error or a timeout.
abbrev pub try_addr : {T : Type 0} → (SocketAddr → Option T) → Option SocketAddr → Option T
try_addr connect none = none
try_addr connect (some a) = connect a

unfoldable pub attempt_p2p_connection :
    {T : Type 0} → (SocketAddr → Option T) → P2pInfo → P2pInfo → Option T
attempt_p2p_connection connect remote own =
    if not remote.p2p_enabled && not own.p2p_enabled
    then none
    else elim (try_addr connect remote.local_addr) [
      | some t ↦ some t
      | none ↦ try_addr connect remote.public_addr
    ]
