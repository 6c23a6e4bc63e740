-- ===== src/Identity.antt =====
-- app/src-tauri/src/crypto.rs: the identity's file and the device id. The keys' arithmetic and the hash are
-- parameters.
pub mod File
pub mod Stored
mod Tests
use secure_desk.Base.{
  ℕ, ◌+◌, ◌*◌, ◌/◌, ◌%◌, ◌^◌, ◌≡◌, not, List, [], ◌∷◌, ◌++◌, ◌==◌, if◌then◌else◌, length, get_or,
}
use secure_desk.Base.Outcome.{Outcome, ok, err, panic, ◌>>=◌, slice}

-- The two public keys follow from the secret ones; `digest` is BLAKE3, of 32 bytes.
pub record Keys : Type 0 where
  pub x25519_public : List ℕ → List ℕ
  pub verifying_key : List ℕ → List ℕ
  pub digest : List ℕ → List ℕ

pub record Identity : Type 0 where
  pub x25519_secret : List ℕ
  pub x25519_public : List ℕ
  pub ed25519_key : List ℕ

pub data Error : Type 0 where
  invalid_identity_file io : Error

unfoldable pub save : Identity → List ℕ
save i = i.x25519_secret ++ i.ed25519_key

unfoldable pub load : Keys → List ℕ → Outcome Error Identity
load keys bytes = if not (length bytes == 64) then err invalid_identity_file else (do
  secret ← slice bytes 0 32
  signing ← slice bytes 32 64
  ok (record {
    x25519_secret = secret;
    x25519_public = keys.x25519_public secret;
    ed25519_key = signing;
  }))

-- `u64::from_le_bytes` of the first eight bytes
abbrev pub from_le64 : List ℕ → ℕ
from_le64 b =
    get_or b 0 0
    + get_or b 1 0 * 2 ^ 8
    + get_or b 2 0 * 2 ^ 16
    + get_or b 3 0 * 2 ^ 24
    + get_or b 4 0 * 2 ^ 32
    + get_or b 5 0 * 2 ^ 40
    + get_or b 6 0 * 2 ^ 48
    + get_or b 7 0 * 2 ^ 56

abbrev pub digit : ℕ → ℕ
digit n = b'0' + n % 10

-- `{:09}` of a number below 10 ^ 9
abbrev pub nine_digits : ℕ → List ℕ
nine_digits n =
    digit (n / 100000000)
    ∷ digit (n / 10000000)
    ∷ digit (n / 1000000)
    ∷ digit (n / 100000)
    ∷ digit (n / 10000)
    ∷ digit (n / 1000)
    ∷ digit (n / 100)
    ∷ digit (n / 10)
    ∷ digit n
    ∷ []

-- Three digits, a space, three digits, a space, three digits.
abbrev pub spaced : List ℕ → List ℕ
spaced id =
    get_or id 0 0
    ∷ get_or id 1 0
    ∷ get_or id 2 0
    ∷ b' '
    ∷ get_or id 3 0
    ∷ get_or id 4 0
    ∷ get_or id 5 0
    ∷ b' '
    ∷ get_or id 6 0
    ∷ get_or id 7 0
    ∷ get_or id 8 0
    ∷ []

unfoldable pub device_id : Keys → Identity → List ℕ
device_id keys i =
    let hash = keys.digest (i.x25519_public ++ keys.verifying_key i.ed25519_key) in
    spaced (nine_digits (from_le64 hash % 1000000000))

-- `replace(' ', "")`
unfoldable pub without_spaces : List ℕ → List ℕ
without_spaces [] = []
without_spaces (b ∷ bs) = let rest = without_spaces bs in if b == b' ' then rest else b ∷ rest

unfoldable pub device_id_raw : Keys → Identity → List ℕ
unfolding device_id without_spaces
device_id_raw keys i = without_spaces (device_id keys i)
