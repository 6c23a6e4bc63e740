-- ===== src/Protocol/Input.antt =====
-- app/src-tauri/src/protocol.rs: the input channel's message types.
use secure_desk.Base.{ℕ}

abbrev pub mouse_move : ℕ
mouse_move = 0x01

abbrev pub mouse_button : ℕ
mouse_button = 0x02

abbrev pub mouse_scroll : ℕ
mouse_scroll = 0x03

abbrev pub key_down : ℕ
key_down = 0x04

abbrev pub key_up : ℕ
key_up = 0x05
