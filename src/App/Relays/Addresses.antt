-- ===== src/App/Relays/Addresses.antt =====
-- app/src-tauri/src/main.rs: reading a list of addresses.
use secure_desk.Base.{
  ℕ, ◌≡◌, ◌≢◌, refl, ap, ◌∙◌, false, List, [], ◌∷◌, ◌++◌, All, is_empty, ◌==◌, if-false, ne→==,
}
use secure_desk.Sso.Url.{split_on, add_to_first}
use secure_desk.App.Relays.{Listener, trim, trimmed, without_empty, addresses_of, set_relay_address}

-- An address as it may stand in a list: without a comma, white space at its ends, and not empty
pub record IsAddress (a : List ℕ) : Type 0 where
  pub no_comma : All (λ b. b ≢ b',') a
  pub no_space : trim a ≡ a
  pub not_empty : is_empty a ≡ false

abbrev pub join : List (List ℕ) → List ℕ
join [] = []
join (a ∷ []) = a
join (a ∷ b ∷ relays) = a ++ (b',' ∷ join (b ∷ relays))

split_on-last : (a : List ℕ) → All (λ b. b ≢ b',') a → split_on b',' a ≡ a ∷ []
unfolding split_on
split_on-last [] h = refl
split_on-last (b ∷ bs) h =
    if-false (b == b',') _ _ (ne→== b b',' h.0) ∙ ap (add_to_first b) (split_on-last bs h.1)

split_on-append :
    (a rest : List ℕ)
    → All (λ b. b ≢ b',') a
    → split_on b',' (a ++ (b',' ∷ rest)) ≡ a ∷ split_on b',' rest
unfolding split_on
split_on-append [] rest h = refl
split_on-append (b ∷ bs) rest h =
    if-false (b == b',') _ _ (ne→== b b',' h.0) ∙ ap (add_to_first b) (split_on-append bs rest h.1)

kept :
    (a : List ℕ) (relays : List (List ℕ))
    → IsAddress a
    → without_empty (trimmed (a ∷ relays)) ≡ a ∷ without_empty (trimmed relays)
kept a relays h = rw h.no_space (if-false (is_empty a) _ _ h.not_empty)

addresses_of-join :
    (relays : List (List ℕ)) → All IsAddress relays → addresses_of (join relays) ≡ relays
unfolding addresses_of
addresses_of-join [] h = refl
addresses_of-join (a ∷ []) h =
    ap (λ ps. without_empty (trimmed ps)) (split_on-last a h.0.no_comma) ∙ kept a [] h.0
addresses_of-join (a ∷ b ∷ relays) h =
    ap (λ ps. without_empty (trimmed ps)) (split_on-append a (join (b ∷ relays)) h.0.no_comma)
    ∙ (kept a (split_on b',' (join (b ∷ relays))) h.0
        ∙ ap (λ rest. a ∷ rest) (addresses_of-join (b ∷ relays) h.1))

-- Addresses that are not empty, have no comma and no white space at their ends are read back from the text that joins
-- them with commas, in their order and all of them.
pub set_relay_address-join :
    {S : Type 0} (relays : List (List ℕ)) (l : Listener S)
    → All IsAddress relays
    → (set_relay_address (join relays) l).relay_addresses ≡ relays
unfolding set_relay_address
set_relay_address-join relays l h = addresses_of-join relays h
