-- ===== src/Identity/File.antt =====
-- app/src-tauri/src/crypto.rs: an identity that is saved and loaded, and the digits of its device id.
use secure_desk.Base.{
  ℕ, ◌%◌, ◌/◌, ◌≤◌, ◌≡◌, refl, sym, ap, ◌∙◌, List, [], ◌∷◌, ◌++◌, arith, length, All, length-append,
  take, drop, take-length, take-length_append, drop-length_append, ne→==, subst,
}
use secure_desk.Base.Outcome.{ok}
use secure_desk.Identity.{
  Keys, Identity, save, load, device_id, device_id_raw, without_spaces, nine_digits, from_le64,
  spaced, digit,
}

-- An identity as the program makes them: keys of 32 bytes, the public one that of the secret one.
pub record IsValid (keys : Keys) (i : Identity) : Type 0 where
  pub secret_length : length i.x25519_secret ≡ 32
  pub key_length : length i.ed25519_key ≡ 32
  pub public : i.x25519_public ≡ keys.x25519_public i.x25519_secret

-- An identity whose two secret keys have 32 bytes and whose public key is that of its secret one
-- is, once saved, what is loaded.
pub load-save : (keys : Keys) (i : Identity) → IsValid keys i → load keys (save i) ≡ ok i
unfolding load save
load-save keys i v =
    let a = i.x25519_secret in
    let b = i.ed25519_key in
    let long : length (a ++ b) ≡ 64 =
      omega (arith, length-append a b, v.secret_length, v.key_length) in
    let first = subst (λ k. take k (a ++ b) ≡ a) v.secret_length (take-length_append a b) in
    let behind = subst (λ k. drop k (a ++ b) ≡ b) v.secret_length (drop-length_append a b) in
    let second = subst (λ k. take k b ≡ b) v.key_length (take-length b) in
    rw (long, first, behind, second) (ap (λ p. ok (record i { x25519_public = p })) (sym v.public))

-- A digit of ASCII.
abbrev pub IsDigit : ℕ → Type 0
IsDigit b = (b'0' ≤ b) × (b ≤ b'9')

digit-IsDigit : (n : ℕ) → IsDigit (digit n)
digit-IsDigit n = (omega arith, omega arith)

without_spaces-three :
    (a b c : ℕ) (rest : List ℕ)
    → without_spaces (digit a ∷ digit b ∷ digit c ∷ rest)
      ≡ digit a ∷ digit b ∷ digit c ∷ without_spaces rest
unfolding without_spaces
without_spaces-three a b c rest =
    rw
      (
        ne→== (digit a) b' ' (omega arith),
        ne→== (digit b) b' ' (omega arith),
        ne→== (digit c) b' ' (omega arith),
      )
      refl

without_spaces-spaced : (n : ℕ) → without_spaces (spaced (nine_digits n)) ≡ nine_digits n
unfolding without_spaces
without_spaces-spaced n =
    let last = digit (n / 100) ∷ digit (n / 10) ∷ digit n ∷ [] in
    let middle = digit (n / 100000) ∷ digit (n / 10000) ∷ digit (n / 1000) ∷ (b' ' ∷ last) in
    without_spaces-three (n / 100000000) (n / 10000000) (n / 1000000) (b' ' ∷ middle)
    ∙ ap (λ r. digit (n / 100000000) ∷ digit (n / 10000000) ∷ digit (n / 1000000) ∷ r)
        (without_spaces-three (n / 100000) (n / 10000) (n / 1000) (b' ' ∷ last)
          ∙ ap (λ r. digit (n / 100000) ∷ digit (n / 10000) ∷ digit (n / 1000) ∷ r)
              (without_spaces-three (n / 100) (n / 10) n []))

nine_digits-All : (n : ℕ) → (length (nine_digits n) ≡ 9) × All IsDigit (nine_digits n)
nine_digits-All n =
    let d = digit-IsDigit in
    (
      refl,
      (
        d (n / 100000000),
        (
          d (n / 10000000),
          (
            d (n / 1000000),
            (
              d (n / 100000),
              (d (n / 10000), (d (n / 1000), (d (n / 100), (d (n / 10), (d n, tt))))),
            ),
          ),
        ),
      ),
    )

-- Whatever the hash gives, the device id without its spaces is nine digits.
pub device_id_raw_lem :
    (keys : Keys) (i : Identity)
    → (length (device_id_raw keys i) ≡ 9) × All IsDigit (device_id_raw keys i)
unfolding device_id_raw device_id
device_id_raw_lem keys i =
    let n =
      from_le64 (keys.digest (i.x25519_public ++ keys.verifying_key i.ed25519_key)) % 1000000000 in
    rw (without_spaces-spaced n) (nine_digits-All n)
