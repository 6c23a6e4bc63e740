-- ===== src/Transport/PeerInfo/Tests.antt =====
-- Runs of `P2PInfo` of app/src-tauri/src/transport.rs, and its theorems at concrete addresses.
use secure_desk.Base.{◌≡◌, refl, true, none, some, [], ◌∷◌}
use secure_desk.Base.Outcome.{err}
use secure_desk.Transport.PeerInfo.{
  SocketAddr, v4, v6, info, addr_at, has_addr, decode_addr, local_pos, encode, decode,
  invalid_version,
}

abbrev lan : SocketAddr
lan = v4 192 168 1 20 50000

abbrev wan : SocketAddr
wan = v4 203 0 113 5 50000

abbrev six : SocketAddr
six = v6 (32 ∷ 1 ∷ 13 ∷ 184 ∷ 0 ∷ 0 ∷ 0 ∷ 0 ∷ 0 ∷ 0 ∷ 0 ∷ 0 ∷ 0 ∷ 0 ∷ 0 ∷ 1 ∷ []) 49409 0 0

-- An IPv6 public address whose port has the low byte 1 is not read back at all.
six_fails : decode (encode (info (some six) none true)) ≡ err invalid_version
unfolding decode encode addr_at has_addr decode_addr local_pos
six_fails = refl
