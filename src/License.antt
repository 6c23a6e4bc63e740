-- ===== src/License.antt =====
-- app/src-tauri/src/license.rs: licenses, their tiers and features, and the manager that keeps one in an
-- encrypted file. serde_json, base64, BLAKE3 and AES-GCM are the parameter `Crypto`; `now` is the time in
-- seconds. Of white space, `trim` knows that of ASCII.
pub mod Manager
pub mod Laws
mod Tests
use secure_desk.Base.{
  ℕ, ◌+◌, ◌-◌, ◌/◌, ◌%◌, ◌^◌, ◌≡◌, Bool, true, false, not, ◌&&◌, ◌||◌, Option, none, some, List, [],
  ◌∷◌, ltb, leb, ◌==◌, if◌then◌else◌, length,
}
use secure_desk.Base.Text.{text_eq}

pub data LicenseTier : Type 0 where
  free basic pro enterprise : LicenseTier

-- "Free", "Basic", "Pro" and "Enterprise"
unfoldable pub as_str : LicenseTier → List ℕ
as_str free = b'F' ∷ b'r' ∷ b'e' ∷ b'e' ∷ []
as_str basic = b'B' ∷ b'a' ∷ b's' ∷ b'i' ∷ b'c' ∷ []
as_str pro = b'P' ∷ b'r' ∷ b'o' ∷ []
as_str enterprise = b'E' ∷ b'n' ∷ b't' ∷ b'e' ∷ b'r' ∷ b'p' ∷ b'r' ∷ b'i' ∷ b's' ∷ b'e' ∷ []

-- `to_lowercase`; no other letter becomes one of the tiers' names.
abbrev pub lowercase : List ℕ → List ℕ
lowercase [] = []
lowercase (b ∷ bs) =
    let rest = lowercase bs in if leb b'A' b && leb b b'Z' then (b + 32) ∷ rest else b ∷ rest

unfoldable pub from_str : List ℕ → LicenseTier
from_str s =
    let name = lowercase s in
    if text_eq name (b'b' ∷ b'a' ∷ b's' ∷ b'i' ∷ b'c' ∷ [])
    then basic
    else if text_eq name (b'p' ∷ b'r' ∷ b'o' ∷ [])
    then pro
    else if text_eq name (b'e' ∷ b'n' ∷ b't' ∷ b'e' ∷ b'r' ∷ b'p' ∷ b'r' ∷ b'i' ∷ b's' ∷ b'e' ∷ [])
    then enterprise
    else free

pub record LicensePayload : Type 0 where
  pub tier : LicenseTier
  pub key_id : List ℕ
  pub issued_at : ℕ
  pub expires_at : ℕ
  pub max_sessions : ℕ
  pub features : ℕ

pub record License : Type 0 where
  pub payload : LicensePayload
  pub signature : List ℕ

unfoldable pub is_expired : ℕ → License → Bool
is_expired now l = if l.payload.expires_at == 0 then false else ltb l.payload.expires_at now

-- The signature is not looked at.
unfoldable pub is_valid : ℕ → License → Bool
unfolding is_expired
is_valid now l = not (is_expired now l)

pub data ℤ : Type 0 where
  pos negsuc : ℕ → ℤ

-- The number that a word of 64 bits is as an `i64`
abbrev pub as_i64 : ℕ → ℤ
as_i64 n = if ltb n (2 ^ 63) then pos n else negsuc (2 ^ 64 - n - 1)

-- The quotient is cut off towards zero.
abbrev pub days_of : ℤ → ℤ
days_of (pos n) = pos (n / 86400)
days_of (negsuc n) = let days = (n + 1) / 86400 in if days == 0 then pos 0 else negsuc (days - 1)

unfoldable pub days_remaining : ℕ → License → Option ℤ
days_remaining now l =
    if l.payload.expires_at == 0
    then none
    else some (days_of (as_i64 ((l.payload.expires_at + 2 ^ 64 - now) % 2 ^ 64)))

pub data LicenseFeature : Type 0 where
  basic_remote_control encrypted_connection : LicenseFeature
  file_transfer clipboard multi_monitor : LicenseFeature
  unattended_access session_recording custom_branding : LicenseFeature
  self_hosted_relay active_directory audit_logs : LicenseFeature

-- `matches!` with the tiers from basic, from pro, and the last one
abbrev pub from_basic : LicenseTier → Bool
from_basic free = false
from_basic basic = true
from_basic pro = true
from_basic enterprise = true

abbrev pub from_pro : LicenseTier → Bool
from_pro free = false
from_pro basic = false
from_pro pro = true
from_pro enterprise = true

abbrev pub from_enterprise : LicenseTier → Bool
from_enterprise free = false
from_enterprise basic = false
from_enterprise pro = false
from_enterprise enterprise = true

unfoldable pub tier_has_feature : LicenseFeature → LicenseTier → Bool
tier_has_feature basic_remote_control tier = true
tier_has_feature encrypted_connection tier = true
tier_has_feature file_transfer tier = from_basic tier
tier_has_feature clipboard tier = from_basic tier
tier_has_feature multi_monitor tier = from_basic tier
tier_has_feature unattended_access tier = from_pro tier
tier_has_feature session_recording tier = from_pro tier
tier_has_feature custom_branding tier = from_pro tier
tier_has_feature self_hosted_relay tier = from_enterprise tier
tier_has_feature active_directory tier = from_enterprise tier
tier_has_feature audit_logs tier = from_enterprise tier
