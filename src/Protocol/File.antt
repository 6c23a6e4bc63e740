-- ===== src/Protocol/File.antt =====
-- app/src-tauri/src/protocol.rs: the file channel's message types.
use secure_desk.Base.{ℕ}

abbrev pub file_offer : ℕ
file_offer = 0x01

abbrev pub file_accept : ℕ
file_accept = 0x02

abbrev pub file_reject : ℕ
file_reject = 0x03

abbrev pub file_chunk : ℕ
file_chunk = 0x04

abbrev pub file_complete : ℕ
file_complete = 0x05

abbrev pub file_cancel : ℕ
file_cancel = 0x06

abbrev pub file_progress : ℕ
file_progress = 0x07
