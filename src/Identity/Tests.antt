-- ===== src/Identity/Tests.antt =====
-- The theorems on app/src-tauri/src/crypto.rs at a concrete identity.
use secure_desk.Base.{ℕ, zero, suc, ◌≡◌, refl, List, [], ◌∷◌}
use secure_desk.Base.Outcome.{ok}
use secure_desk.Identity.{Keys, Identity, save, load}

abbrev zeros : ℕ → List ℕ
zeros zero = []
zeros (suc n) = 0 ∷ zeros n

abbrev keys : Keys
keys = record { x25519_public = λ s. 9 ∷ s; verifying_key = λ s. s; digest = λ s. s }

abbrev identity : Identity
identity = record { x25519_secret = zeros 32; x25519_public = 9 ∷ zeros 32; ed25519_key = zeros 32 }

loads : load keys (save identity) ≡ ok identity
unfolding load save
loads = refl
