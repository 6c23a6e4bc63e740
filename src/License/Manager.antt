-- ===== src/License/Manager.antt =====
-- app/src-tauri/src/license.rs: `LicenseManager`.
use secure_desk.Base.{
  ℕ, ◌+◌, ◌≡◌, Bool, true, ◌&&◌, ◌||◌, Option, none, some, List, [], ◌∷◌, ◌++◌, ltb, leb, ◌==◌,
  if◌then◌else◌, length, take, drop,
}
use secure_desk.License.{
  LicenseTier, free, as_str, License, is_expired, is_valid, ℤ, days_remaining, LicenseFeature,
  tier_has_feature,
}
use secure_desk.Base.Outcome.{Outcome, ok, err}

-- What the code uses of its libraries; `none` is an error that they return.
pub record Crypto : Type 0 where
  pub hash : List ℕ → List ℕ
  pub to_vec : License → List ℕ
  pub from_slice : List ℕ → Option License
  pub base64_decode : List ℕ → Option (List ℕ)
  pub encrypt : List ℕ → List ℕ → List ℕ → Option (List ℕ)
  pub decrypt : List ℕ → List ℕ → List ℕ → Option (List ℕ)

-- A text that was written is read, and a ciphertext is the text's length with a tag of 16 bytes and is
-- decrypted under its key and nonce.
pub record IsCrypto (c : Crypto) : Type 0 where
  pub reads : (l : License) → c.from_slice (c.to_vec l) ≡ some l
  pub tagged :
      (key nonce text sealed : List ℕ)
      → c.encrypt key nonce text ≡ some sealed
      → length sealed ≡ length text + 16
  pub opens :
      (key nonce text sealed : List ℕ)
      → c.encrypt key nonce text ≡ some sealed
      → c.decrypt key nonce sealed ≡ some text

pub data LicenseError : Type 0 where
  io decryption_failed encryption_failed bad_json no_randomness : LicenseError
  invalid_format invalid_data expired : LicenseError

pub record LicenseManager : Type 0 where
  pub current_license : Option License
  pub encryption_key : List ℕ

-- The file, if there is one, and whether it can be written; `left` is what a
-- write that fails leaves of it.
pub record Store : Type 0 where
  pub file : Option (List ℕ)
  pub writable : Bool
  pub left : Option (List ℕ)

abbrev pub Licensed : Type 0 → Type 0
Licensed A = Outcome LicenseError A × LicenseManager × Store

unfoldable pub current_tier : ℕ → LicenseManager → LicenseTier
unfolding is_valid
current_tier now m = elim m.current_license [
  | none ↦ free
  | some l ↦ if is_valid now l then l.payload.tier else free
]

pub record LicenseInfo : Type 0 where
  pub tier : List ℕ
  pub key_id : Option (List ℕ)
  pub expires_at : Option ℕ
  pub days_left : Option ℤ
  pub max_sessions : ℕ
  pub valid : Bool

abbrev pub free_info : LicenseInfo
free_info = record {
  tier = as_str free;
  key_id = none;
  expires_at = none;
  days_left = none;
  max_sessions = 1;
  valid = true;
}

unfoldable pub license_info : ℕ → LicenseManager → LicenseInfo
unfolding is_valid days_remaining
license_info now m = elim m.current_license [
  | none ↦ free_info
  | some l ↦
      if is_valid now l
      then record {
        tier = as_str l.payload.tier;
        key_id = some l.payload.key_id;
        expires_at = if l.payload.expires_at == 0 then none else some l.payload.expires_at;
        days_left = days_remaining now l;
        max_sessions = l.payload.max_sessions;
        valid = true;
      }
      else free_info
]

unfoldable pub has_feature : ℕ → LicenseFeature → LicenseManager → Bool
unfolding current_tier tier_has_feature
has_feature now feature m = tier_has_feature feature (current_tier now m)

-- "SecureDesk-License-Key-v1" and "encrypted-license-storage" are the texts around the key.
unfoldable pub new_manager : Crypto → List ℕ → List ℕ → List ℕ → LicenseManager
new_manager c label device_public_key storage = record {
  current_license = none;
  encryption_key = take 32 (c.hash (label ++ (device_public_key ++ storage)));
}

abbrev pub is_space : ℕ → Bool
is_space b = (leb 9 b && leb b 13) || (b == b' ')

abbrev pub trim_start : List ℕ → List ℕ
trim_start [] = []
trim_start (b ∷ bs) = let rest = trim_start bs in if is_space b then rest else b ∷ bs

abbrev pub trim_end : List ℕ → List ℕ
trim_end [] = []
trim_end (b ∷ bs) = elim (trim_end bs) [
  | [] ↦ if is_space b then [] else b ∷ []
  | x ∷ xs ↦ b ∷ x ∷ xs
]

abbrev pub without : List ℕ → List ℕ
without [] = []
without (b ∷ bs) = let rest = without bs in if (b == b' ') || (b == b'-') then rest else b ∷ rest

-- `trim`, and the two calls of `replace`
abbrev pub clean_key : List ℕ → List ℕ
clean_key key = without (trim_end (trim_start key))

module _ (c : Crypto) where
  -- The license that is read, where it still counts
  abbrev pub accept : ℕ → License → LicenseManager → LicenseManager
  accept now l m =
      if is_valid now l
      then record m { current_license = some l }
      else record m { current_license = none }

  abbrev pub load_sealed : ℕ → List ℕ → LicenseManager → Store → Licensed (Unit {0})
  load_sealed now bytes m s = elim (c.decrypt m.encryption_key (take 12 bytes) (drop 12 bytes)) [
    | none ↦ (err decryption_failed, m, s)
    | some text ↦ elim (c.from_slice text) [
      | none ↦ (err bad_json, m, s)
      | some l ↦ (ok tt, accept now l m, s)
    ]
  ]

  -- A file that is too short for its nonce and tag is removed.
  unfoldable pub load : ℕ → LicenseManager → Store → Licensed (Unit {0})
  load now m s = elim s.file [
    | none ↦ (ok tt, record m { current_license = none }, s)
    | some bytes ↦
        if ltb (length bytes) (12 + 16)
        then if s.writable
          then (ok tt, record m { current_license = none }, record s { file = none })
          else (err io, m, s)
        else load_sealed now bytes m s
  ]

  -- `nonce` is what the generator of random numbers gives, if it does.
  unfoldable pub save : Option (List ℕ) → LicenseManager → Store → Licensed (Unit {0})
  save nonce m s = elim m.current_license [
    | none ↦ elim s.file [
      | none ↦ (ok tt, m, s)
      | some bytes ↦ if s.writable then (ok tt, m, record s { file = none }) else (err io, m, s)
    ]
    | some l ↦ elim nonce [
      | none ↦ (err no_randomness, m, s)
      | some bytes ↦ elim (c.encrypt m.encryption_key bytes (c.to_vec l)) [
        | none ↦ (err encryption_failed, m, s)
        | some sealed ↦
            if s.writable
            then (ok tt, m, record s { file = some (bytes ++ sealed) })
            else (err io, m, record s { file = s.left })
      ]
    ]
  ]

  abbrev pub with_tier : LicenseTier → Licensed (Unit {0}) → Licensed LicenseTier
  with_tier tier (ok u, m, s) = (ok tier, m, s)
  with_tier tier (err e, m, s) = (err e, m, s)
  with_tier tier (Outcome.panic, m, s) = (Outcome.panic, m, s)

  unfoldable pub activate :
      ℕ → Option (List ℕ) → List ℕ → LicenseManager → Store → Licensed LicenseTier
  unfolding save is_expired
  activate now nonce key m s = elim (c.base64_decode (clean_key key)) [
    | none ↦ (err invalid_format, m, s)
    | some bytes ↦ elim (c.from_slice bytes) [
      | none ↦ (err invalid_data, m, s)
      | some l ↦
          if is_expired now l
          then (err expired, m, s)
          else with_tier l.payload.tier (save nonce (record m { current_license = some l }) s)
    ]
  ]

  unfoldable pub deactivate : LicenseManager → Store → Licensed (Unit {0})
  unfolding save
  deactivate m s = save none (record m { current_license = none }) s
