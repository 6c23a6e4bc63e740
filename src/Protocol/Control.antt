-- ===== src/Protocol/Control.antt =====
-- app/src-tauri/src/protocol.rs: the control channel's message types.
use secure_desk.Base.{ℕ}

abbrev pub handshake : ℕ
handshake = 0x01

abbrev pub session_request : ℕ
session_request = 0x02

abbrev pub session_accept : ℕ
session_accept = 0x03

abbrev pub session_end : ℕ
session_end = 0x04

abbrev pub keepalive : ℕ
keepalive = 0x05

abbrev pub resolution : ℕ
resolution = 0x06

abbrev pub p2p_offer : ℕ
p2p_offer = 0x10

abbrev pub p2p_answer : ℕ
p2p_answer = 0x11

abbrev pub p2p_ready : ℕ
p2p_ready = 0x12

abbrev pub p2p_failed : ℕ
p2p_failed = 0x13

abbrev pub error : ℕ
error = 0xff
