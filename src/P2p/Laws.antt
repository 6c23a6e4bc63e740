-- ===== src/P2p/Laws.antt =====
-- app/src-tauri/src/p2p.rs: the range of the port, what is offered, and when no connection is tried.
use secure_desk.Base.{ℕ, ◌≤◌, ◌<◌, ◌≡◌, true, Option, none, some, List, arith, ◌⊎◌}
use secure_desk.Transport.PeerInfo.{SocketAddr, v4, v6, P2pInfo, IsAddr, AllAddr}
use secure_desk.P2p.{choose_p2p_port, attempt_p2p_connection, try_addr, with_port, set_port}

-- The port lies in the dynamic range and is never its last one, 65535.
pub choose_p2p_port_bounds :
    (device_id : List ℕ) → (49152 ≤ choose_p2p_port device_id) × (choose_p2p_port device_id < 65535)
unfolding choose_p2p_port
choose_p2p_port_bounds device_id = omega arith

set_port-IsAddr : (port : ℕ) (a : SocketAddr) → port < 65536 → IsAddr a → IsAddr (set_port port a)
set_port-IsAddr port (v4 a b c d p) h k = (k.0, k.1, k.2, k.3, h)
set_port-IsAddr port (v6 octets p flow scope) h k = (k.0, k.1, h, k.3, k.4)

with_port-AllAddr :
    (port : ℕ) (o : Option SocketAddr) → port < 65536 → AllAddr o → AllAddr (with_port port o)
with_port-AllAddr port none h k = tt
with_port-AllAddr port (some a) h k = set_port-IsAddr port a h k

-- A connection is the one to the peer's local address, or, where that is absent or fails, the one to its
-- public address; and it is tried only if one of the two sides has P2P enabled.
pub attempt_p2p_connection-some :
    {T : Type 0} (connect : SocketAddr → Option T) (remote own : P2pInfo) {t : T}
    → attempt_p2p_connection connect remote own ≡ some t
    → ((remote.p2p_enabled ≡ true) ⊎ (own.p2p_enabled ≡ true))
      × ((try_addr connect remote.local_addr ≡ some t)
          ⊎ ((try_addr connect remote.local_addr ≡ none)
              × (try_addr connect remote.public_addr ≡ some t)))
unfolding attempt_p2p_connection
attempt_p2p_connection-some connect remote own h = ground arith
