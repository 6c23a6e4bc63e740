-- ===== src/P2p/Tests.antt =====
-- Runs of app/src-tauri/src/p2p.rs, and its theorems at concrete addresses.
use secure_desk.Base.{ℕ, ◌≡◌, refl, true, false, Option, none, some, ltb, if◌then◌else◌}
use secure_desk.Transport.PeerInfo.{SocketAddr, v4, v6, info}
use secure_desk.P2p.{attempt_p2p_connection}

abbrev lan : SocketAddr
lan = v4 192 168 1 20 50000

abbrev wan : SocketAddr
wan = v4 203 0 113 5 50000

-- A peer that answers at its public address only.
abbrev connect : SocketAddr → Option ℕ
connect (v4 a b c d port) = if ltb 200 a then some port else none
connect (v6 octets port flow scope) = none

public_wins :
    attempt_p2p_connection connect (info (some wan) (some lan) true) (info none none false)
    ≡ some 50000
unfolding attempt_p2p_connection
public_wins = refl
