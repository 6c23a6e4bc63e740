-- ===== src/License/Tests.antt =====
-- Runs of app/src-tauri/src/license.rs, and its theorems, with toys in place of the libraries: a ciphertext is 16
-- zeros and the text, a license is its fields one after the other.
use secure_desk.Base.{
  ℕ, zero, suc, ◌≡◌, refl, true, Option, none, some, List, [], ◌∷◌, ◌++◌, length, take, drop, arith,
  take-length_append, drop-length_append,
}
use secure_desk.Base.Outcome.{ok}
use secure_desk.License.{
  LicenseTier, free, basic, pro, enterprise, LicensePayload, License, is_expired,
}
use secure_desk.License.Manager.{
  Crypto, IsCrypto, LicenseManager, Store, current_tier, load, activate,
}
use secure_desk.License.Laws.{rank, load-activate}

abbrev tier_of : ℕ → LicenseTier
tier_of zero = free
tier_of (suc zero) = basic
tier_of (suc (suc zero)) = pro
tier_of (suc (suc (suc n))) = enterprise

tier_of-rank : (t : LicenseTier) → tier_of (rank t) ≡ t
tier_of-rank free = refl
tier_of-rank basic = refl
tier_of-rank pro = refl
tier_of-rank enterprise = refl

abbrev text_of : License → List ℕ
text_of l =
    rank l.payload.tier
    ∷ l.payload.issued_at
    ∷ l.payload.expires_at
    ∷ l.payload.max_sessions
    ∷ l.payload.features
    ∷ length l.payload.key_id
    ∷ (l.payload.key_id ++ l.signature)

abbrev license_of : List ℕ → Option License
license_of (tier ∷ issued ∷ expires ∷ sessions ∷ features ∷ n ∷ rest) = some (record {
  payload = record {
    tier = tier_of tier;
    key_id = take n rest;
    issued_at = issued;
    expires_at = expires;
    max_sessions = sessions;
    features = features;
  };
  signature = drop n rest;
})
license_of _ = none

abbrev zeros : List ℕ
zeros = 0 ∷ 0 ∷ 0 ∷ 0 ∷ 0 ∷ 0 ∷ 0 ∷ 0 ∷ 0 ∷ 0 ∷ 0 ∷ 0 ∷ 0 ∷ 0 ∷ 0 ∷ 0 ∷ []

abbrev toy : Crypto
toy = record {
  hash = λ bytes. bytes;
  to_vec = text_of;
  from_slice = license_of;
  base64_decode = λ text. some text;
  encrypt = λ key nonce text. some (zeros ++ text);
  decrypt = λ key nonce sealed. some (drop 16 sealed);
}

toy-IsCrypto : IsCrypto toy
toy-IsCrypto = record {
  reads = λ l. simp (tier_of-rank, take-length_append, drop-length_append) refl;
  tagged = λ key nonce text sealed e. ground (arith, e);
  opens = λ key nonce text sealed e. ground (arith, e);
}

abbrev manager : LicenseManager
manager = record { current_license = none; encryption_key = 1 ∷ [] }

abbrev store : Store
store = record { file = none; writable = true; left = none }

abbrev payload : LicensePayload
payload = record {
  tier = pro;
  key_id = [];
  issued_at = 1;
  expires_at = 9;
  max_sessions = 3;
  features = 0;
}

abbrev nonce : List ℕ
nonce = 0 ∷ 0 ∷ 0 ∷ 0 ∷ 0 ∷ 0 ∷ 0 ∷ 0 ∷ 0 ∷ 0 ∷ 0 ∷ 0 ∷ []

-- The key of a license whose signature is empty
abbrev key : List ℕ
key = text_of (record { payload = payload; signature = [] })

load-activate_example :
    let activated = activate toy 5 (some nonce) key manager store in
    let loaded = load toy 9 manager activated.2 in
    (activated.0 ≡ ok pro) × (loaded.0 ≡ ok tt) × (current_tier 9 loaded.1 ≡ pro)
unfolding is_expired
load-activate_example =
    load-activate toy toy-IsCrypto 5 9 nonce key key (zeros ++ key) [] payload manager manager store
      refl refl refl refl (omega arith) refl refl refl
