-- ===== src/Protocol/Privacy.antt =====
-- app/src-tauri/src/protocol.rs: the privacy channel's message types.
use secure_desk.Base.{ℕ}

abbrev pub black_screen_on : ℕ
black_screen_on = 0x01

abbrev pub black_screen_off : ℕ
black_screen_off = 0x02

abbrev pub input_block_on : ℕ
input_block_on = 0x03

abbrev pub input_block_off : ℕ
input_block_off = 0x04

abbrev pub status_ack : ℕ
status_ack = 0x05
