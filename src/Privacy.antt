-- ===== src/Privacy.antt =====
-- app/src-tauri/src/privacy.rs: the two privacy flags, as they are kept on every platform but Windows.
pub mod Windows
use secure_desk.Base.{Bool, true, false}

pub record PrivacyMode : Type 0 where
  pub black_screen : Bool
  pub input_blocked : Bool

abbrev pub new_privacy : PrivacyMode
new_privacy = record { black_screen = false; input_blocked = false }

unfoldable pub enable_black_screen : PrivacyMode → PrivacyMode
enable_black_screen p = record p { black_screen = true }

unfoldable pub disable_black_screen : PrivacyMode → PrivacyMode
disable_black_screen p = record p { black_screen = false }

unfoldable pub block_input : PrivacyMode → PrivacyMode
block_input p = record p { input_blocked = true }

unfoldable pub unblock_input : PrivacyMode → PrivacyMode
unblock_input p = record p { input_blocked = false }

unfoldable pub disable_all : PrivacyMode → PrivacyMode
unfolding disable_black_screen unblock_input
disable_all p = unblock_input (disable_black_screen p)
