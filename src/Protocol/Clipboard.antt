-- ===== src/Protocol/Clipboard.antt =====
-- app/src-tauri/src/protocol.rs: the clipboard channel's message types and its data types.
use secure_desk.Base.{ℕ}

abbrev pub clipboard_request : ℕ
clipboard_request = 0x01

abbrev pub clipboard_data : ℕ
clipboard_data = 0x02

abbrev pub clipboard_changed : ℕ
clipboard_changed = 0x03

abbrev pub clipboard_sync_status : ℕ
clipboard_sync_status = 0x04

abbrev pub data_type_text : ℕ
data_type_text = 0x01

abbrev pub data_type_image : ℕ
data_type_image = 0x02

abbrev pub data_type_files : ℕ
data_type_files = 0x03
